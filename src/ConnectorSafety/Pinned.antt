-- ===== src/ConnectorSafety/Pinned.antt =====
-- libs/holon_common/connector_safety.py: the address that a client connects to was checked.
use mathlib.Core.Path.{subst}
use holon.Prelude.{
  ℕ, ◌+◌, ◌≡◌, refl, Bool, true, false, Option, none, some, List, Bool-cases, inl, inr,
}
use holon.Prelude.Text.{Text}
use holon.Prelude.Exec.{Outcome, returned, raised, raise_if, ◌>>=◌, ◌>>◌, >>=-returned}
use holon.ConnectorSafety.{SafetyError, host_required, host_not_allowed, host_unresolved}
use holon.ConnectorSafety.EnvRefs.{is_empty}
use holon.ConnectorSafety.Hosts.{
  Ip, Address, unwrap_ip, Network, hostname, is_allowed, is_refused_name, answer, resolve_ips,
  platform_blocked_ips, look_up_platform, is_refused_ip, answers_blocked, bare, and_again,
  then_again, pin_name, pin_address, pin_checked, check_name, pin_connector_host,
}

module _ (net : Network) where
  -- The address is a literal that is not blocked, or the first of an answer without a blocked address,
  -- and the next answer has none either.
  pub data IsChecked (allow_private : Bool) (platform_ips : List Text) (name : Text) (n : ℕ)
      (address : Text) : Type 0 where
    literal :
        (a : Address)
        → net.ip_address (bare net name) ≡ some a
        → is_refused_ip net allow_private platform_ips (unwrap_ip a) ≡ false
        → address ≡ (unwrap_ip a).text
        → IsChecked allow_private platform_ips name n address
    resolved :
        (first second : Ip × List Ip)
        → answer net n name ≡ some first
        → answer net (n + 1) name ≡ some second
        → answers_blocked net allow_private platform_ips first ≡ false
        → answers_blocked net allow_private platform_ips second ≡ false
        → address ≡ first.0.text
        → IsChecked allow_private platform_ips name n address

  from_answer :
      (o : Option (Ip × List Ip)) (n : ℕ) (a : Ip × List Ip)
      → let out : Outcome SafetyError (Ip × List Ip) × ℕ = elim o [
        | none ↦ (raised host_unresolved, n + 1)
        | some ips ↦ (returned ips, n + 1)
      ] in
        out.0 ≡ returned a → (o ≡ some a) × (out.1 ≡ n + 1)
  from_answer none n a h = absurd (cc)
  from_answer (some b) n a h = (cc h, refl)

  resolve_ips-returned :
      (name : Text) (n : ℕ) (a : Ip × List Ip)
      → (resolve_ips net name n).0 ≡ returned a
      → (answer net n name ≡ some a) × ((resolve_ips net name n).1 ≡ n + 1)
  unfolding resolve_ips
  resolve_ips-returned name n a h = from_answer (answer net n name) n a h

  module _ (name : Text) (platform_ips : List Text) (n : ℕ) (address : Text) (last : ℕ) where
    abbrev allow : Bool
    allow = is_allowed net name

    and_again-returned :
        (first second : Ip × List Ip) (m : ℕ)
        → and_again net allow platform_ips first second m ≡ (returned address, last)
        → (answers_blocked net allow platform_ips second ≡ false) × (address ≡ first.0.text)
    unfolding and_again
    and_again-returned first second m h =
        elim (Bool-cases (answers_blocked net allow platform_ips second)) [
          | inl bad ↦ absurd (cc (rw bad at h))
          | inr good ↦ (good, cc (rw good at h))
        ]

    then_again-returned :
        (first : Ip × List Ip) (m : ℕ)
        → then_again net allow platform_ips name first m ≡ (returned address, last)
        → (answers_blocked net allow platform_ips first ≡ false)
          × ((resolve_ips net name >>= and_again net allow platform_ips first) m
              ≡ (returned address, last))
    unfolding then_again
    then_again-returned first m h =
        elim (Bool-cases (answers_blocked net allow platform_ips first)) [
          | inl bad ↦ absurd (cc (rw bad at h))
          | inr good ↦ (good, rw good at h)
        ]

    pin_name-IsChecked :
        pin_name net allow platform_ips name n ≡ (returned address, last)
        → IsChecked allow platform_ips name n address
    unfolding pin_name
    pin_name-IsChecked h =
        let one =
          >>=-returned (resolve_ips net name) (then_again net allow platform_ips name) n last
            address h in
        let first = one.0 in
        let found = resolve_ips-returned name n first one.1 in
        let clean = then_again-returned first (resolve_ips net name n).1 one.2 in
        let two =
          >>=-returned (resolve_ips net name) (and_again net allow platform_ips first)
            (resolve_ips net name n).1 last address clean.1 in
        let again = resolve_ips-returned name (resolve_ips net name n).1 two.0 two.1 in
        let done = and_again-returned first two.0 _ two.2 in
        resolved first two.0 found.0 (subst (λ m. answer net m name ≡ some two.0) found.1 again.0)
          clean.0 done.0 done.1

    pin_address-IsChecked :
        (o : Option Address)
        → net.ip_address (bare net name) ≡ o
        → pin_address net allow platform_ips name o n ≡ (returned address, last)
        → IsChecked allow platform_ips name n address
    pin_address-IsChecked none is h = pin_name-IsChecked h
    pin_address-IsChecked (some a) is h =
        elim (Bool-cases (is_refused_ip net allow platform_ips (unwrap_ip a))) [
          | inl bad ↦ absurd (cc (rw bad at h))
          | inr good ↦ literal a is good (cc (rw good at h))
        ]

  checked :
      (name : Text) (platform_ips : List Text) (n : ℕ) (address : Text) (last : ℕ)
      → pin_checked net name platform_ips n ≡ (returned address, last)
      → IsChecked (is_allowed net name) platform_ips name n address
  unfolding pin_checked
  checked name platform_ips n address last h =
      pin_address-IsChecked name platform_ips n address last (net.ip_address (bare net name)) refl h

  two_checks :
      (a b : Bool) (n : ℕ) (u : Unit {0})
      → let out : Outcome SafetyError (Unit {0}) × ℕ =
          (raise_if a host_required >> raise_if b host_not_allowed) n in
        out.0 ≡ returned u → (b ≡ false) × (out.1 ≡ n)
  two_checks true b n u h = absurd (cc)
  two_checks false true n u h = absurd (cc)
  two_checks false false n u h = (refl, refl)

  check_name-returned :
      (name : Text) (n : ℕ) (u : Unit {0})
      → (check_name net name n).0 ≡ returned u
      → (is_refused_name net name ≡ false) × ((check_name net name n).1 ≡ n)
  check_name-returned name n u h = two_checks (is_empty name) (is_refused_name net name) n u h

  -- Let `pin_connector_host` return an address. Then the name of the host, in lower case and without
  -- spaces and last dots, is none of the platform's and does not end in `.internal`; and the address is
  -- a literal that is not blocked, or the first one of a DNS answer of which no address is blocked, and
  -- the next answer had no blocked address either. The addresses of the platform's own services, as
  -- they were looked up before, count as blocked.
  pub pin_connector_host-IsChecked :
      (host address : Text) (n last : ℕ)
      → pin_connector_host net host n ≡ (returned address, last)
      → let (platform_ips, m) = platform_blocked_ips net n in
        (is_refused_name net (hostname host) ≡ false)
        × IsChecked (is_allowed net (hostname host)) platform_ips (hostname host) m address
  unfolding pin_connector_host
  pin_connector_host-IsChecked host address n last h =
      let name = hostname host in
      let one =
        >>=-returned (check_name net name) (λ _. look_up_platform net >>= pin_checked net name) n
          last address h in
      let fine = check_name-returned name n one.0 one.1 in
      let rest =
        subst (λ k. (look_up_platform net >>= pin_checked net name) k ≡ (returned address, last))
          fine.1 one.2 in
      (
        fine.0,
        checked name (platform_blocked_ips net n).0 (platform_blocked_ips net n).1 address last
            rest,
      )
