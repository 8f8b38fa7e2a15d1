-- ===== src/Web/Gate/Names.antt =====
-- src/web.rs: the allowlist of hosts.
use dockdoe.Prelude.{
  ◌≡◌, refl, arith, true, false, some, List, [], ◌∷◌, Text, is_empty, contains, contains_of_In, In,
  here, there, text_eq, Bool-cases, inl, inr,
}
use dockdoe.Web.Gate.{normalize, normalize_allowed_hosts, host_allowed}

In-select_map :
    (h : Text) (hosts : List Text)
    → In h hosts
    → is_empty (normalize h) ≡ false
    → In (normalize h) (normalize_allowed_hosts hosts)
unfolding normalize_allowed_hosts
In-select_map h [] m n = elim m [ ]
In-select_map h (_ ∷ hosts) here n = rw n here
In-select_map h (g ∷ hosts) (there m) n = elim (Bool-cases (is_empty (normalize g))) [
  | inl e ↦ rw e (In-select_map h hosts m n)
  | inr e ↦ rw e (there (In-select_map h hosts m n))
]

allowed_of_contains :
    (host : Text) (allowed : List Text)
    → contains allowed (normalize host) ≡ true
    → host_allowed (some host) allowed ≡ true
unfolding host_allowed
allowed_of_contains host [] h = refl
allowed_of_contains host (a ∷ allowed) h = ground arith

-- A request that names a host as the configuration spells it, port, brackets, case and blanks included,
-- is allowed; and so is any other spelling with the same normal form.
pub host_allowed-configured :
    (host spelled : Text) (hosts : List Text)
    → In host hosts
    → is_empty (normalize host) ≡ false
    → normalize spelled ≡ normalize host
    → host_allowed (some spelled) (normalize_allowed_hosts hosts) ≡ true
host_allowed-configured host spelled hosts m n e =
    allowed_of_contains spelled (normalize_allowed_hosts hosts) (
      contains_of_In (normalize spelled) (normalize_allowed_hosts hosts)
        (rw e (In-select_map host hosts m n)))
