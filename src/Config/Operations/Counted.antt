-- ===== src/Config/Operations/Counted.antt =====
-- The operations on the list of networks: one network is active, and no two have one identifier.
use nostr_vpn.Prelude.{
  ◌+◌, ◌≤◌, ◌≡◌, refl, sym, ap, ◌∙◌, true, false, ◌&&◌, not, List, [], ◌∷◌, ◌++◌, map, arith,
  length, count, keep, if◌then◌else◌, Bool-cases, inl, inr, any, find, Bool, leb, ◌==◌, some,
  ==_iff, count-keep-le, keep_same, subst, ℕ, find_rest, find_first, Option, none,
}
use nostr_vpn.Prelude.Text.{Text, str_eq, str_eq_iff}
use nostr_vpn.Collections.HashSet.{contains, is_unique, append_unique, collect, contains-collect}
use nostr_vpn.Config.State.{NetworkConfig, Libraries, AppConfig, edit_first, ConfigError}
use nostr_vpn.Config.Networks.{
  is_enabled, enable_first_if_none, enable_first, normalize_selected_exit_node, network_by_id,
  with_network,
}
use nostr_vpn.Config.Operations.{
  ids_of, remove_network, disabled, enable_only, tidy, add_network, added_network,
  set_network_enabled, set_found,
}
use nostr_vpn.Config.Operations.Frames.{
  frames, normalize_peer_aliases_networks, normalize_selected_exit_node_networks, note-Keeps,
  Framed, cons-Framed, frames-edited,
}
use nostr_vpn.Prelude.Results.{ok, Result}
use nostr_vpn.Config.Labels.{uniquify_network_entry_id, default_network_entry_id}
use nostr_vpn.Config.Labels.Fresh.{uniquify_network_entry_id_fresh}

-- One network is active, and each has an identifier of its own.
pub record IsConfigured (ns : List NetworkConfig) : Type 0 where
  pub active : count is_enabled ns ≡ 1
  pub ids : is_unique (ids_of ns) ≡ true

count-frames : (ns : List NetworkConfig) → count is_enabled ns ≡ count (λ f. f.1) (frames ns)
unfolding count frames
count-frames [] = refl
count-frames (n ∷ ns) = ground (arith, count-frames ns)

ids_frames : (ns : List NetworkConfig) → ids_of ns ≡ map (λ f. f.0) (frames ns)
unfolding frames
ids_frames [] = refl
ids_frames (n ∷ ns) = ap (λ xs. n.id ∷ xs) (ids_frames ns)

pub frames-IsConfigured :
    (ns ms : List NetworkConfig) → frames ms ≡ frames ns → IsConfigured ns → IsConfigured ms
frames-IsConfigured ns ms e h = record {
  active = count-frames ms ∙ ap (count (λ f. f.1)) e ∙ sym (count-frames ns) ∙ h.active;
  ids = ap is_unique (ids_frames ms ∙ ap (map (λ f. f.0)) e ∙ sym (ids_frames ns)) ∙ h.ids;
}

count_one_more :
    (ns : List NetworkConfig) (n : NetworkConfig)
    → n.enabled ≡ false
    → count is_enabled (ns ++ n ∷ []) ≡ count is_enabled ns
unfolding count
count_one_more [] n h = ground arith
count_one_more (m ∷ ns) n h = ground (arith, count_one_more ns n h)

ids_one_more :
    (ns : List NetworkConfig) (n : NetworkConfig) → ids_of (ns ++ n ∷ []) ≡ ids_of ns ++ n.id ∷ []
ids_one_more [] n = refl
ids_one_more (m ∷ ns) n = ap (λ xs. m.id ∷ xs) (ids_one_more ns n)

unique_one_more :
    (xs : List Text) (x : Text)
    → is_unique xs ≡ true
    → contains xs x ≡ false
    → is_unique (xs ++ x ∷ []) ≡ true
unfolding is_unique contains
unique_one_more xs x u f = append_unique xs (x ∷ []) u refl (λ k h. ground (arith, str_eq_iff x k))

one_more-IsConfigured :
    (ns : List NetworkConfig) (n : NetworkConfig)
    → IsConfigured ns
    → n.enabled ≡ false
    → contains (ids_of ns) n.id ≡ false
    → IsConfigured (ns ++ n ∷ [])
one_more-IsConfigured ns n h e f = record {
  active = count_one_more ns n e ∙ h.active;
  ids = ap is_unique (ids_one_more ns n) ∙ unique_one_more (ids_of ns) n.id h.ids f;
}

-- Dropping the networks with one identifier drops at most one.
contains-keep_ids :
    (id k : Text) (ns : List NetworkConfig)
    → contains (ids_of (keep (λ n. not (str_eq n.id id)) ns)) k
      ≡ (contains (ids_of ns) k && not (str_eq id k))
unfolding contains keep
contains-keep_ids id k [] = refl
contains-keep_ids id k (n ∷ ns) =
    ground
      (arith, contains-keep_ids id k ns, str_eq_iff n.id id, str_eq_iff n.id k, str_eq_iff id k)

keep_ids_unique :
    (id : Text) (ns : List NetworkConfig)
    → is_unique (ids_of ns) ≡ true
    → is_unique (ids_of (keep (λ n. not (str_eq n.id id)) ns)) ≡ true
unfolding is_unique keep
keep_ids_unique id [] h = refl
keep_ids_unique id (n ∷ ns) h = ground (arith, keep_ids_unique id ns, contains-keep_ids id n.id ns)

length-keep_ids :
    (id : Text) (ns : List NetworkConfig)
    → is_unique (ids_of ns) ≡ true
    → length ns
      ≤ length (keep (λ n. not (str_eq n.id id)) ns) + (if contains (ids_of ns) id then 1 else 0)
unfolding is_unique keep contains
length-keep_ids id [] h = omega arith
length-keep_ids id (n ∷ ns) h = ground (arith, length-keep_ids id ns, str_eq_iff n.id id)

any-count : (ns : List NetworkConfig) → any is_enabled ns ≡ true → 1 ≤ count is_enabled ns
unfolding any count
any-count [] h = ground arith
any-count (n ∷ ns) h = ground (arith, any-count ns)

none_count : (ns : List NetworkConfig) → any is_enabled ns ≡ false → count is_enabled ns ≡ 0
unfolding any count
none_count [] h = refl
none_count (n ∷ ns) h = ground (arith, none_count ns)

count-enable_first :
    (ns : List NetworkConfig)
    → any is_enabled ns ≡ false
    → 1 ≤ length ns
    → count is_enabled (enable_first ns) ≡ 1
unfolding any count
count-enable_first [] h l = absurd (omega arith)
count-enable_first (n ∷ ns) h l = ground (arith, none_count ns)

ids_enable_first : (ns : List NetworkConfig) → ids_of (enable_first ns) ≡ ids_of ns
ids_enable_first [] = refl
ids_enable_first (n ∷ ns) = refl

pub enable_first_if_none-IsConfigured :
    (ns : List NetworkConfig)
    → count is_enabled ns ≤ 1
    → 1 ≤ length ns
    → is_unique (ids_of ns) ≡ true
    → IsConfigured (enable_first_if_none ns)
enable_first_if_none-IsConfigured ns c l u = elim (Bool-cases (any is_enabled ns)) [
  | inl e ↦ rw e (record { active = omega (arith, any-count ns e); ids = u })
  | inr e ↦
      rw e (record {
        active = count-enable_first ns e l;
        ids = ap is_unique (ids_enable_first ns) ∙ u;
      })
]

kept_some :
    (id : Text) (ns : List NetworkConfig)
    → is_unique (ids_of ns) ≡ true
    → 2 ≤ length ns
    → 1 ≤ length (keep (λ n. not (str_eq n.id id)) ns)
kept_some id ns u l = ground (arith, length-keep_ids id ns u)

tidy_networks : (lib : Libraries) (c : AppConfig) → (tidy lib c).networks ≡ c.networks
tidy_networks lib c =
    normalize_peer_aliases_networks lib (normalize_selected_exit_node c)
    ∙ normalize_selected_exit_node_networks c

pub remove_network-IsConfigured :
    (lib : Libraries) (id : Text) (c : AppConfig)
    → IsConfigured c.networks
    → IsConfigured (remove_network lib id c).0.networks
unfolding remove_network
remove_network-IsConfigured lib id c h =
    let kept = keep (λ n. not (str_eq n.id id)) c.networks in
    elim (Bool-cases (leb (length c.networks) 1)) [
      | inl e ↦ rw e h
      | inr e ↦ elim (Bool-cases (length kept == length c.networks)) [
        | inl f ↦ rw (e, f) (subst IsConfigured (sym (keep_same _ c.networks ((==_iff _ _).0 f))) h)
        | inr f ↦
            rw (e, f)
              (subst IsConfigured
                (sym (tidy_networks lib (record c { networks = enable_first_if_none kept })))
                (enable_first_if_none-IsConfigured kept
                  (omega (
                    arith,
                    count-keep-le is_enabled (λ n. not (str_eq n.id id)) c.networks,
                    h.active,
                  ))
                  (kept_some id c.networks h.ids (ground arith))
                  (keep_ids_unique id c.networks h.ids)))
      ]
    ]

count-disabled : (ns : List NetworkConfig) → count is_enabled (map disabled ns) ≡ 0
unfolding count
count-disabled [] = refl
count-disabled (n ∷ ns) = count-disabled ns

disabled_ids : (ns : List NetworkConfig) → ids_of (map disabled ns) ≡ ids_of ns
disabled_ids [] = refl
disabled_ids (n ∷ ns) = ap (λ xs. n.id ∷ xs) (disabled_ids ns)

enable_only_ids :
    (test : NetworkConfig → Bool) (ns : List NetworkConfig)
    → ids_of (enable_only test ns) ≡ ids_of ns
unfolding enable_only
enable_only_ids test [] = refl
enable_only_ids test (n ∷ ns) = elim (Bool-cases (test n)) [
  | inl e ↦ rw e (ap (λ xs. n.id ∷ xs) (disabled_ids ns))
  | inr e ↦ rw e (ap (λ xs. n.id ∷ xs) (enable_only_ids test ns))
]

count-enable_only :
    (test : NetworkConfig → Bool) (ns : List NetworkConfig) (n : NetworkConfig)
    → find test ns ≡ some n
    → count is_enabled (enable_only test ns) ≡ 1
unfolding enable_only find count
count-enable_only test [] n h = cc
count-enable_only test (m ∷ ns) n h = elim (Bool-cases (test m)) [
  | inl e ↦ rw e (omega (arith, count-disabled ns))
  | inr e ↦ rw e (count-enable_only test ns n (find_rest test m n ns h e))
]

-- An edit of the network that is found, which is not active before and after it.
edit_disabled-Framed :
    (test : NetworkConfig → Bool) (ns : List NetworkConfig) (n : NetworkConfig)
    → find test ns ≡ some n
    → n.enabled ≡ false
    → Framed ns (edit_first {A = Result ConfigError (Unit {0})} test (λ m. (disabled m, ok tt)) ns)
unfolding edit_first frames
edit_disabled-Framed test [] n h e = tt
edit_disabled-Framed test (m ∷ ns) n h e = elim (Bool-cases (test m)) [
  | inl f ↦
      rw f (
        ap (λ b. (m.id, b) ∷ frames ns)
          (sym (ap (λ k. k.enabled) (find_first test m n ns h f) ∙ e)))
  | inr f ↦ rw f (cons-Framed m ns _ (edit_disabled-Framed test ns n (find_rest test m n ns h f) e))
]

set_found-IsConfigured :
    (id : Text) (enabled : Bool) (o : Option NetworkConfig) (c : AppConfig)
    → find (λ n. str_eq n.id id) c.networks ≡ o
    → IsConfigured c.networks
    → IsConfigured (set_found id enabled o c).0.networks
unfolding set_found with_network
set_found-IsConfigured id enabled none c e h = h
set_found-IsConfigured id true (some n) c e h = record {
  active = count-enable_only (λ m. str_eq m.id id) c.networks n e;
  ids = ap is_unique (enable_only_ids (λ m. str_eq m.id id) c.networks) ∙ h.ids;
}
set_found-IsConfigured id false (some n) c e h = elim (Bool-cases n.enabled) [
  | inl f ↦ rw f h
  | inr f ↦ rw f (
      frames-IsConfigured c.networks _
        (frames-edited _ c _ (edit_disabled-Framed (λ m. str_eq m.id id) c.networks n e f)) h)
]

pub set_network_enabled-IsConfigured :
    (id : Text) (enabled : Bool) (c : AppConfig)
    → IsConfigured c.networks
    → IsConfigured (set_network_enabled id enabled c).0.networks
unfolding set_network_enabled network_by_id
set_network_enabled-IsConfigured id enabled c h = set_found-IsConfigured id enabled _ c refl h

pub add_network-IsConfigured :
    (lib : Libraries) (now : ℕ) (name : Text) (c : AppConfig)
    → IsConfigured c.networks
    → IsConfigured (add_network lib now name c).0.networks
unfolding add_network
add_network-IsConfigured lib now name c h =
    let id =
      (uniquify_network_entry_id (default_network_entry_id (length c.networks + 1))
        (collect (ids_of c.networks))).0 in
    frames-IsConfigured _ _ ((note-Keeps lib now id).kept _) (
      one_more-IsConfigured c.networks (added_network id name (length c.networks + 1)) h refl (
        sym (contains-collect (ids_of c.networks) id)
        ∙ uniquify_network_entry_id_fresh (default_network_entry_id (length c.networks + 1))
            (collect (ids_of c.networks))))
