-- ===== src/Config/Shared/Applied.antt =====
-- Which rosters are applied, and what they change.
use nostr_vpn.Prelude.{
  ◌+◌, ◌&&◌, not, is_some_and, any, every, ℕ, ◌≤◌, ◌<◌, ◌≡◌, refl, sym, ap, ◌∙◌, Bool, true, false,
  Option, none, some, List, [], ◌∷◌, arith, Bool-cases, inl, inr, leb, ltb, find, is_empty,
  if◌then◌else◌, map_option, find_first, find_rest,
}
use nostr_vpn.Prelude.Results.{Result, ok, err}
use nostr_vpn.Prelude.Text.{Text, str_eq, trim, is_blank}
use nostr_vpn.Prelude.Words.{sat_add}
use nostr_vpn.Collections.HashSet.{contains}
use nostr_vpn.Config.State.{
  Libraries, NetworkConfig, AppConfig, Operation, edit_first, edited, own_nostr_pubkey_hex,
  normalize_runtime_network_id, ConfigError, then_run, pubkey_result,
}
use nostr_vpn.Config.Roster.{
  normalize_network_admins, normalize_shared_roster_participants, normalize_outbound_join_request,
  normalize_inbound_join_requests, sorted_unique,
}
use nostr_vpn.Config.Roster.Sets.{
  reads, readable, stands_in, contains-participants, contains-admins,
}
use nostr_vpn.Config.Networks.{normalize_selected_exit_node, members_of}
use nostr_vpn.Config.Operations.Frames.{
  normalize_peer_aliases_networks, normalize_selected_exit_node_networks,
}
use nostr_vpn.Config.Shared.{
  SignedRoster, adopted, adopt_members, adopt_roster, has_runtime_id, after_adoption,
  adopt_in_network, apply_admin_signed_shared_roster, max_future_secs, adopt_aliases, apply_signed,
}

-- The list with another network in the place of the first that passes the test.
unfoldable pub replace_first :
    (NetworkConfig → Bool) → NetworkConfig → List NetworkConfig → List NetworkConfig
replace_first test m [] = []
replace_first test m (n ∷ ns) =
    let rest = replace_first test m ns in if test n then m ∷ ns else n ∷ rest

pub replace_same :
    (test : NetworkConfig → Bool) (ns : List NetworkConfig) (n : NetworkConfig)
    → find test ns ≡ some n
    → replace_first test n ns ≡ ns
unfolding replace_first
replace_same test [] n h = refl
replace_same test (m ∷ ns) n h = elim (Bool-cases (test m)) [
  | inl e ↦ rw e (ap (λ x. x ∷ ns) (sym (find_first test m n ns h e)))
  | inr e ↦ rw e (ap (λ xs. m ∷ xs) (replace_same test ns n (find_rest test m n ns h e)))
]

pub edit_first-none :
    {A : Type 0} (test : NetworkConfig → Bool) (f : NetworkConfig → NetworkConfig × A)
    (ns : List NetworkConfig)
    → find test ns ≡ none
    → edit_first test f ns ≡ none
unfolding edit_first find
edit_first-none test f [] h = refl
edit_first-none test f (m ∷ ns) h = ground (arith, edit_first-none test f ns)

pub edit_first-some :
    {A : Type 0} (test : NetworkConfig → Bool) (f : NetworkConfig → NetworkConfig × A)
    (ns : List NetworkConfig) (n : NetworkConfig)
    → find test ns ≡ some n
    → edit_first test f ns ≡ some (replace_first test (f n).0 ns, (f n).1)
unfolding edit_first replace_first find
edit_first-some test f [] n h = cc
edit_first-some test f (m ∷ ns) n h = elim (Bool-cases (test m)) [
  | inl e ↦ rw e (ap (λ k. some ((f k).0 ∷ ns, (f k).1)) (find_first test m n ns h e))
  | inr e ↦ rw e (
      ap (λ o. map_option o (λ r. (m ∷ r.0, r.1)))
        (edit_first-some test f ns n (find_rest test m n ns h e)))
]

module _ (lib : Libraries) where
  -- The network's new members, which the roster names.
  pub record NewMembers (own : Option Text) (r : SignedRoster) (n : NetworkConfig) : Type 0 where
    pub participants : List Text
    pub admins : List Text
    pub of_roster : normalize_shared_roster_participants lib r.participants own ≡ ok participants
    pub by_roster : normalize_network_admins lib r.admins own n.invite_inviter ≡ admins
    pub filled : is_empty admins ≡ false

  -- A network whose admin signed the roster, which is newer than the last.
  pub record IsDue (signer : Text) (r : SignedRoster) (n : NetworkConfig) : Type 0 where
    pub admin : contains n.admins signer ≡ true
    pub newer : n.shared_roster_updated_at < r.signed_at

  abbrev AdoptionOf :
      Option Text
      → Text
      → SignedRoster
      → NetworkConfig
      → NetworkConfig × Result ConfigError (Option NetworkConfig)
      → Type 0
  AdoptionOf own signer r n (n1, err e) = n1 ≡ n
  AdoptionOf own signer r n (n1, ok none) = n1 ≡ n
  AdoptionOf own signer r n (n1, ok (some n2)) =
      IsDue signer r n
      × ((m : NewMembers own r n) × (n1 ≡ adopted lib signer r m.participants m.admins n))

  adopt_members_adoption :
      (own : Option Text) (signer : Text) (r : SignedRoster) (n : NetworkConfig)
      (ps : Result ConfigError (List Text)) (xs : List Text)
      → IsDue signer r n
      → normalize_shared_roster_participants lib r.participants own ≡ ps
      → normalize_network_admins lib r.admins own n.invite_inviter ≡ xs
      → AdoptionOf own signer r n (adopt_members lib signer r n ps xs)
  adopt_members_adoption own signer r n (err e) xs d p a = refl
  adopt_members_adoption own signer r n (ok ps) [] d p a = refl
  adopt_members_adoption own signer r n (ok ps) (x ∷ xs) d p a = (
    d,
    (
      record { participants = ps; admins = x ∷ xs; of_roster = p; by_roster = a; filled = refl },
      refl,
    ),
  )

  adopt_roster_adoption :
      (own : Option Text) (signer : Text) (r : SignedRoster) (n : NetworkConfig)
      → AdoptionOf own signer r n (adopt_roster lib own signer r n)
  unfolding adopt_roster
  adopt_roster_adoption own signer r n = elim (Bool-cases (contains n.admins signer)) [
    | inr e ↦ rw e refl
    | inl e ↦ elim (Bool-cases (leb r.signed_at n.shared_roster_updated_at)) [
      | inl f ↦ rw (e, f) refl
      | inr f ↦
          rw (e, f)
            (adopt_members_adoption own signer r n _ _ (record { admin = e; newer = ground arith })
              refl refl)
    ]
  ]

  -- The network after the roster, `n1`, in terms of the network before and of the roster.
  pub record IsRosterOf (own : Option Text) (signer : Text) (r : SignedRoster)
      (n n1 : NetworkConfig) : Type 0 where
    -- The participants can all be read; they are those of the roster but for the node itself.
    pub all_read : every (readable lib) r.participants ≡ true
    pub participants :
        (k : Text)
        → contains n1.participants k
          ≡ (any (reads lib k) r.participants && not (is_some_and own (λ o. str_eq k o)))
    -- The admins are those of the roster that can be read, and there is one; where none can be
    -- read, the inviter, or else the node itself, stands in.
    pub admins :
        (k : Text)
        → contains n1.admins k ≡ (
            if any (readable lib) r.admins
            then any (reads lib k) r.admins
            else stands_in lib (lib.parse_pubkey n.invite_inviter) own k)
    pub has_admin : is_empty n1.admins ≡ false
    pub named : n1.name ≡ (if is_blank r.network_name then n.name else trim r.network_name)
    -- The inviter is an admin, or else the signer.
    pub inviter :
        n1.invite_inviter
        ≡ (if contains n1.admins n.invite_inviter then n.invite_inviter else signer)
    pub signed_at : n1.shared_roster_updated_at ≡ r.signed_at
    pub signed_by : n1.shared_roster_signed_by ≡ signer
    -- The join requests are those of before in their normal form for the new participants.
    pub outbound :
        n1.outbound_join_request
        ≡ normalize_outbound_join_request lib n.outbound_join_request n1.participants
    pub inbound :
        n1.inbound_join_requests
        ≡ normalize_inbound_join_requests lib n.inbound_join_requests n1.participants
    pub kept :
        (n1.id ≡ n.id)
        × (n1.enabled ≡ n.enabled)
        × (n1.network_id ≡ n.network_id)
        × (n1.listen_for_join_requests ≡ n.listen_for_join_requests)

  adopted-IsRosterOf :
      (own : Option Text) (signer : Text) (r : SignedRoster) (n : NetworkConfig)
      (m : NewMembers own r n)
      → IsRosterOf own signer r n (adopted lib signer r m.participants m.admins n)
  adopted-IsRosterOf own signer r n m = record {
    all_read = (contains-participants lib r.participants own m.participants [] m.of_roster).1;
    participants =
        λ k. (contains-participants lib r.participants own m.participants k m.of_roster).0;
    admins = λ k.
        ap (λ l. contains l k) (sym m.by_roster)
        ∙ contains-admins lib r.admins own n.invite_inviter k;
    has_admin = m.filled;
    named = refl;
    inviter = refl;
    signed_at = refl;
    signed_by = refl;
    outbound = refl;
    inbound = refl;
    kept = (refl, refl, refl, refl);
  }

  -- A roster that is applied: the first network with its identifier, whose admin signed it with a
  -- timestamp that is newer than the last and not too far in the future, is replaced by that of the
  -- roster, and no other network changes.
  pub record IsApplied (now : ℕ) (r : SignedRoster) (c c1 : AppConfig) : Type 0 where
    pub signer : Text
    pub network : NetworkConfig
    pub parsed : lib.parse_pubkey r.signed_by ≡ some signer
    pub timely : r.signed_at ≤ now + 600
    pub found :
        find (has_runtime_id (normalize_runtime_network_id r.network_id)) c.networks ≡ some network
    pub due : IsDue signer r network
    pub replacement : NetworkConfig
    pub of_roster : IsRosterOf (own_nostr_pubkey_hex lib c) signer r network replacement
    pub networks :
        c1.networks
        ≡ replace_first
            (has_runtime_id (normalize_runtime_network_id r.network_id))
            replacement
            c.networks

  -- What the result says of the configuration: with `true`, the roster is applied; with `false` or
  -- an error, nothing has changed.
  abbrev pub Outcome : ℕ → SignedRoster → AppConfig → AppConfig × Result ConfigError Bool → Type 0
  Outcome now r c (c1, ok true) = IsApplied now r c c1
  Outcome now r c (c1, ok false) = c1 ≡ c
  Outcome now r c (c1, err e) = c1 ≡ c

  pub after_adoption_networks :
      (r : SignedRoster) (n2 : NetworkConfig) (d : AppConfig)
      → (after_adoption lib r (some n2) d).0.networks ≡ d.networks
  after_adoption_networks r n2 d =
      let own = own_nostr_pubkey_hex lib d in
      let aliases =
        adopt_aliases lib own (sorted_unique (members_of n2)) d.peer_aliases r.aliases in
      let d1 = record d { peer_aliases = aliases } in
      normalize_peer_aliases_networks lib (normalize_selected_exit_node d1)
      ∙ normalize_selected_exit_node_networks d1

  module _ (now : ℕ) (r : SignedRoster) (c : AppConfig) (signer : Text)
      (parsed : lib.parse_pubkey r.signed_by ≡ some signer)
      (timely : r.signed_at ≤ sat_add now max_future_secs) where
    with_id : NetworkConfig → Bool
    with_id = has_runtime_id (normalize_runtime_network_id r.network_id)

    same_networks :
        (n n1 : NetworkConfig)
        → find with_id c.networks ≡ some n
        → n1 ≡ n
        → record c { networks = replace_first with_id n1 c.networks } ≡ c
    same_networks n n1 f e =
        ap (λ m. record c { networks = replace_first with_id m c.networks }) e
        ∙ ap (λ ns. record c { networks = ns }) (replace_same with_id c.networks n f)

    found-Outcome :
        (n : NetworkConfig) (q : NetworkConfig × Result ConfigError (Option NetworkConfig))
        → find with_id c.networks ≡ some n
        → AdoptionOf (own_nostr_pubkey_hex lib c) signer r n q
        → Outcome now r c (
            then_run
              (after_adoption lib r)
              (edited (ok none) c (some (replace_first with_id q.0 c.networks, q.1))))
    unfolding with_id
    found-Outcome n (n1, err e) f a = same_networks n n1 f a
    found-Outcome n (n1, ok none) f a = same_networks n n1 f a
    found-Outcome n (n1, ok (some n2)) f (d, (m, a)) = record {
      signer = signer;
      network = n;
      parsed = parsed;
      timely = omega (arith, timely);
      found = f;
      due = d;
      replacement = adopted lib signer r m.participants m.admins n;
      of_roster = adopted-IsRosterOf (own_nostr_pubkey_hex lib c) signer r n m;
      networks =
          after_adoption_networks r n2 (record c { networks = replace_first with_id n1 c.networks })
          ∙ ap (λ k. replace_first with_id k c.networks) a;
    }

    edit-Outcome :
        (o : Option NetworkConfig)
        → find with_id c.networks ≡ o
        → Outcome now r c (
            then_run
              (after_adoption lib r)
              (adopt_in_network lib (normalize_runtime_network_id r.network_id) signer r c))
    unfolding with_id
    edit-Outcome none e =
        rw
          (edit_first-none with_id (adopt_roster lib (own_nostr_pubkey_hex lib c) signer r)
            c.networks e)
          refl
    edit-Outcome (some n) e =
        rw
          (edit_first-some with_id (adopt_roster lib (own_nostr_pubkey_hex lib c) signer r)
            c.networks n e)
          (found-Outcome n _ e (adopt_roster_adoption (own_nostr_pubkey_hex lib c) signer r n))

  signed-Outcome :
      (now : ℕ) (r : SignedRoster) (c : AppConfig) (signer : Text)
      → lib.parse_pubkey r.signed_by ≡ some signer
      → Outcome now r c
          (apply_signed lib now (normalize_runtime_network_id r.network_id) r signer c)
  signed-Outcome now r c signer p =
      elim (Bool-cases (ltb (sat_add now max_future_secs) r.signed_at)) [
        | inl f ↦ rw f refl
        | inr f ↦ rw f (edit-Outcome now r c signer p (ground arith) _ refl)
      ]

  unparsed-Outcome :
      (now : ℕ) (r : SignedRoster) (c : AppConfig) (k : Text → Operation Bool) (o : Option Text)
      → ((signer : Text) → o ≡ some signer → Outcome now r c (k signer c))
      → Outcome now r c (then_run k (c, pubkey_result o))
  unparsed-Outcome now r c k none h = refl
  unparsed-Outcome now r c k (some signer) h = h signer refl

  -- A signed roster is applied only where an admin of the network that it is for signed it, with a
  -- timestamp that is newer than the last and at most 600 seconds ahead of the clock; then no other
  -- network changes, and that one has the participants of the roster, who can all be read, but for
  -- the node itself, and those of its admins that can be read; where none can, the inviter or else
  -- the node itself stands in as the admin. It has the roster's name unless that is blank, its
  -- timestamp and its signer, who becomes the inviter where the old one is no admin. In every other
  -- case, an error or `false`, the configuration is as it was.
  pub apply_admin_signed_shared_roster-Outcome :
      (now : ℕ) (r : SignedRoster) (c : AppConfig)
      → Outcome now r c (apply_admin_signed_shared_roster lib now r c)
  unfolding apply_admin_signed_shared_roster
  apply_admin_signed_shared_roster-Outcome now r c =
      elim (Bool-cases (is_empty (normalize_runtime_network_id r.network_id))) [
        | inl e ↦ rw e refl
        | inr e ↦ rw e (
            unparsed-Outcome now r c
              (apply_signed lib now (normalize_runtime_network_id r.network_id) r)
              (lib.parse_pubkey r.signed_by) (signed-Outcome now r c))
      ]
