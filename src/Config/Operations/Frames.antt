-- ===== src/Config/Operations/Frames.antt =====
-- What no operation on one network changes: which networks there are and which is active.
use nostr_vpn.Prelude.{
  ℕ, ◌≡◌, refl, ap, ◌∙◌, Bool, true, false, Option, none, some, List, [], ◌∷◌, Bool-cases, inl, inr,
  map_option, is_empty,
}
use nostr_vpn.Prelude.Results.{Result, ok, err}
use nostr_vpn.Prelude.Text.{Text, str_eq}
use nostr_vpn.Collections.HashSet.{contains}
use nostr_vpn.Config.State.{
  Libraries, NetworkConfig, AppConfig, Operation, edit_first, then_run, ◌>>◌, ◌>>=◌, lift, fail_if,
  modify, ConfigError, network_not_found, own_nostr_pubkey_hex, edited, pure,
}
use nostr_vpn.Config.Networks.{
  active_network_signal_pubkeys_hex, with_network, note_network_roster_local_change,
  normalize_selected_exit_node, signed_roster,
}
use nostr_vpn.Config.Aliases.{normalize_peer_aliases}

abbrev pub frame : NetworkConfig → Text × Bool
frame n = (n.id, n.enabled)

unfoldable pub frames : List NetworkConfig → List (Text × Bool)
frames [] = []
frames (n ∷ ns) = frame n ∷ frames ns

-- An operation that leaves the identifiers of the networks and the active one as they are.
pub record Keeps {A : Type 0} (op : Operation A) : Type 0 where
  pub kept : (c : AppConfig) → frames (op c).0.networks ≡ frames c.networks

abbrev pub KeepsNetwork : {A : Type 0} → (NetworkConfig → NetworkConfig × A) → Type 0
KeepsNetwork f = (n : NetworkConfig) → frame (f n).0 ≡ frame n

-- The edited networks have the frames of `ns`.
abbrev pub Framed : {A : Type 0} → List NetworkConfig → Option (List NetworkConfig × A) → Type 0
Framed ns none = Unit
Framed ns (some r) = frames r.0 ≡ frames ns

pub cons-Framed :
    {A : Type 0} (n : NetworkConfig) (ns : List NetworkConfig) (o : Option (List NetworkConfig × A))
    → Framed ns o
    → Framed (n ∷ ns) (map_option o (λ r. (n ∷ r.0, r.1)))
unfolding frames
cons-Framed n ns none h = tt
cons-Framed n ns (some r) h = ap (λ fs. frame n ∷ fs) h

edit_first-Framed :
    {A : Type 0} (test : NetworkConfig → Bool) (f : NetworkConfig → NetworkConfig × A)
    (ns : List NetworkConfig)
    → KeepsNetwork f
    → Framed ns (edit_first test f ns)
unfolding edit_first frames
edit_first-Framed test f [] k = tt
edit_first-Framed test f (n ∷ ns) k = elim (Bool-cases (test n)) [
  | inl e ↦ rw e (ap (λ x. x ∷ frames ns) (k n))
  | inr e ↦ rw e (cons-Framed n ns _ (edit_first-Framed test f ns k))
]

pub frames-edited :
    {A : Type 0} (missing : Result ConfigError A) (c : AppConfig)
    (o : Option (List NetworkConfig × Result ConfigError A))
    → Framed c.networks o
    → frames (edited missing c o).0.networks ≡ frames c.networks
frames-edited missing c none h = refl
frames-edited missing c (some r) h = h

-- An edit of the first network that passes the test.
pub edit_frames :
    {A : Type 0} (missing : Result ConfigError A) (test : NetworkConfig → Bool)
    (f : NetworkConfig → NetworkConfig × Result ConfigError A)
    → KeepsNetwork f
    → (c : AppConfig)
    → frames (edited missing c (edit_first test f c.networks)).0.networks ≡ frames c.networks
edit_frames missing test f k c = frames-edited missing c _ (edit_first-Framed test f c.networks k)

pub with_network-Keeps :
    {A : Type 0} (id : Text) (f : NetworkConfig → NetworkConfig × Result ConfigError A)
    → KeepsNetwork f
    → Keeps (with_network id f)
unfolding with_network
with_network-Keeps id f k = record {
  kept = edit_frames (err network_not_found) (λ n. str_eq n.id id) f k;
}

frames-then_run :
    {A B : Type 0} (k : A → Operation B) (r : AppConfig × Result ConfigError A)
    (fs : List (Text × Bool))
    → ((a : A) → Keeps (k a))
    → frames r.0.networks ≡ fs
    → frames (then_run k r).0.networks ≡ fs
frames-then_run k (c, ok a) fs h e = (h a).kept c ∙ e
frames-then_run k (c, err x) fs h e = e

pub bind-Keeps :
    {A B : Type 0} {m : Operation A} {k : A → Operation B}
    → Keeps m
    → ((a : A) → Keeps (k a))
    → Keeps (m >>= k)
bind-Keeps {m = m} {k = k} h j = record {
  kept = λ c. frames-then_run k (m c) (frames c.networks) j (h.kept c);
}

pub then-Keeps :
    {A B : Type 0} {m : Operation A} {n : Operation B} → Keeps m → Keeps n → Keeps (m >> n)
then-Keeps h j = bind-Keeps h (λ a. j)

pub pure-Keeps : {A : Type 0} (a : A) → Keeps (pure a)
pure-Keeps a = record { kept = λ c. refl }

pub lift-Keeps : {A : Type 0} (r : Result ConfigError A) → Keeps (lift r)
lift-Keeps r = record { kept = λ c. refl }

frames-fail_if :
    (b : Bool) (e : ConfigError) (c : AppConfig)
    → frames (fail_if b e c).0.networks ≡ frames c.networks
frames-fail_if true e c = refl
frames-fail_if false e c = refl

pub fail_if-Keeps : (b : Bool) (e : ConfigError) → Keeps (fail_if b e)
fail_if-Keeps b e = record { kept = frames-fail_if b e }

frame-signed_roster :
    (now : ℕ) (own : Option Text) (n : NetworkConfig) → frame (signed_roster now own n) ≡ frame n
frame-signed_roster now none n = refl
frame-signed_roster now (some own) n = elim (Bool-cases (contains n.admins own)) [
  | inl e ↦ rw e refl
  | inr e ↦ rw e refl
]

pub note-Keeps :
    (lib : Libraries) (now : ℕ) (id : Text) → Keeps (note_network_roster_local_change lib now id)
unfolding note_network_roster_local_change with_network
note-Keeps lib now id = record {
  kept = λ c.
      edit_frames (err network_not_found) (λ n. str_eq n.id id)
        (λ n. (signed_roster now (own_nostr_pubkey_hex lib c) n, ok tt))
        (frame-signed_roster now (own_nostr_pubkey_hex lib c)) c;
}

pub normalize_selected_exit_node_networks :
    (c : AppConfig) → (normalize_selected_exit_node c).networks ≡ c.networks
unfolding normalize_selected_exit_node
normalize_selected_exit_node_networks c = elim (Bool-cases (is_empty c.exit_node)) [
  | inl e ↦ rw e refl
  | inr e ↦ elim (Bool-cases (contains (active_network_signal_pubkeys_hex c) c.exit_node)) [
    | inl f ↦ rw (e, f) refl
    | inr f ↦ rw (e, f) refl
  ]
]

pub normalize_peer_aliases_networks :
    (lib : Libraries) (c : AppConfig) → (normalize_peer_aliases lib c).networks ≡ c.networks
unfolding normalize_peer_aliases
normalize_peer_aliases_networks lib c = refl

-- A method that does not touch the networks.
pub modify-Keeps :
    (f : AppConfig → AppConfig) → ((c : AppConfig) → (f c).networks ≡ c.networks) → Keeps (modify f)
modify-Keeps f h = record { kept = λ c. ap frames (h c) }
