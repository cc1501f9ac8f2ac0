-- ===== src/SenderPolicy.antt =====
-- src/channels/email/sender_policy.rs: the address that a mail is sent from. The file of the authorized
-- domains and the default of the environment are arguments.
use Prim.Native.Char.{code}
use Prim.Native.String.{String}
use geodineum_comms.Prelude.{
  ◌≡◌, refl, ◌==◌, eq_refl, Bool, true, false, not, ◌||◌, ◌&&◌, Option, none, some, List, [], ◌∷◌,
  any, eqb, arith, if◌then◌else◌,
}
use geodineum_comms.Prelude.Chars.{trim, is_empty_text, eq_ignore_ascii_case, ascii_lowercase}

pub record ResolvedSender : Type 0 where
  pub from_email : String
  pub fallback_applied : Bool

-- What stands behind the last `@`, if there is one.
unfoldable pub behind_last_at : String → Option String
behind_last_at String.[] = none
behind_last_at (String.◌∷◌ c s) = elim (behind_last_at s) [
  | some t ↦ some t
  | none ↦ if eqb (code c) b'@' then some s else none
]

abbrev pub lower_domain : Option String → Option String
lower_domain none = none
lower_domain (some t) = if is_empty_text t then none else some (ascii_lowercase t)

unfoldable pub domain_of : String → Option String
domain_of addr = lower_domain (behind_last_at addr)

-- the first line of a text, and the lines behind it
abbrev pub first_line : String → String × List String
first_line String.[] = ("", [])
first_line (String.◌∷◌ c s) =
    let rest = first_line s in
    if eqb (code c) b'\n' then ("", rest.0 ∷ rest.1) else (String.◌∷◌ c rest.0, rest.1)

-- `lines()`, but for an empty last line, which is passed over here
unfoldable pub lines : String → List String
lines s = let ls = first_line s in ls.0 ∷ ls.1

abbrev pub is_comment : String → Bool
is_comment String.[] = true
is_comment (String.◌∷◌ c s) = eqb (code c) b'#'

unfoldable pub is_authorized : Option String → String → Bool
is_authorized none domain = false
is_authorized (some body) domain =
    any (λ l. not (is_comment (trim l)) && eq_ignore_ascii_case (trim l) domain) (lines body)

abbrev pub has_at : String → Bool
has_at String.[] = false
has_at (String.◌∷◌ c s) = eqb (code c) b'@' || has_at s

abbrev pub with_at : String → Option String
with_at v = if has_at v then some v else none

unfoldable pub default_from : Option String → Option String
default_from none = none
default_from (some v) = with_at (trim v)

abbrev pub is_domain_of : String → Option String → Bool
is_domain_of dom none = false
is_domain_of dom (some d) = dom == d

abbrev pub default_domain : Option String → Option String
default_domain none = none
default_domain (some from) = domain_of from

abbrev pub as_it_is : String → ResolvedSender
as_it_is configured_from = record { from_email = configured_from; fallback_applied = false }

abbrev pub fall_back : Option String → String → ResolvedSender
fall_back none configured_from = as_it_is configured_from
fall_back (some fallback) configured_from = record {
  from_email = fallback;
  fallback_applied = true;
}

abbrev pub resolve_domain : Option String → Option String → Option String → String → ResolvedSender
resolve_domain body default none configured_from = as_it_is configured_from
resolve_domain body default (some dom) configured_from =
    if is_authorized body dom || is_domain_of dom (default_domain default)
    then as_it_is configured_from
    else fall_back default configured_from

unfoldable pub resolve : Option String → Option String → String → ResolvedSender
resolve body environment configured_from =
    resolve_domain body (default_from environment) (domain_of configured_from) configured_from

resolved_default :
    (body : Option String) (from : String) (d : Option String)
    → domain_of from ≡ d
    → resolve_domain body (some from) d from ≡ as_it_is from
resolved_default body from none e = refl
resolved_default body from (some dom) e = ground (arith, e, eq_refl dom)

-- The sender that is chosen is one that is kept: resolving it again changes nothing.
pub resolve_again :
    (body environment : Option String) (configured_from : String)
    → resolve body environment (resolve body environment configured_from).from_email
      ≡ as_it_is (resolve body environment configured_from).from_email
unfolding resolve
resolve_again body environment configured_from =
    by_domain (default_from environment) (domain_of configured_from) refl
  where
    by_domain :
        (default : Option String) (d : Option String)
        → domain_of configured_from ≡ d
        → resolve_domain body default
            (domain_of (resolve_domain body default d configured_from).from_email)
            (resolve_domain body default d configured_from).from_email
          ≡ as_it_is (resolve_domain body default d configured_from).from_email
    by_domain default none e = rw e refl
    by_domain none (some dom) e = ground (arith, e)
    by_domain (some from) (some dom) e =
        ground (arith, e, resolved_default body from (domain_of from) refl)
