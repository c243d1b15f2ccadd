-- ===== src/Config/Hosts.antt =====
-- app/config.py: the hosts of SSF_ALLOWED_RECEIVER_HOSTS, and what a list of them reads back as.
use Prim.Native.Char.{code}
use Prim.Native.String.{String, [], ◌∷◌, ◌++◌}
use mathlib.Core.List.{List, [] as none_left, ◌∷◌ as and_then}
use text.Mathlib.TextLemmas.{cons-append, nil-append}
use ssf_transmitter.Prelude.{
  ℕ, some, truthy-append, ◌≡◌, refl, Bool, true, false, not, ◌&&◌, Option, arith, eq_iff, ◌==◌,
  nat_eq, string_eq, if◌then◌else◌, truthy, text_or_empty, any_char, strip,
}
use ssf_transmitter.Environment.{Env}

-- `value.split(",")`: the first part and the others.
unfoldable pub split_commas : String → String × List String
split_commas [] = ("", none_left)
split_commas (c ∷ s) =
    let rest = split_commas s in
    if code c == 44 then ("", and_then rest.0 rest.1) else (c ∷ rest.0, rest.1)

-- The part, if it is not blank.
unfoldable pub host_of : Env → String → List String → List String
unfolding strip
host_of e part hosts = if truthy (strip part) then and_then (e.lower (strip part)) hosts else hosts

unfoldable pub hosts_of : Env → List String → List String
unfolding host_of
hosts_of e none_left = none_left
hosts_of e (and_then part parts) = host_of e part (hosts_of e parts)

unfoldable pub parse_allowed_receiver_hosts : Env → Option String → List String
unfolding split_commas hosts_of host_of
parse_allowed_receiver_hosts e value =
    let text = text_or_empty value in
    let parts = split_commas text in
    if not (truthy text) then none_left else host_of e parts.0 (hosts_of e parts.1)

abbrev pub is_comma : ℕ → Bool
is_comma c = c == 44

-- A host as the setting keeps it: not blank, of lower case, without spaces around it or commas in it.
abbrev pub is_clean : Env → String → Bool
is_clean e host =
    truthy host && strip host == host && e.lower host == host && not (any_char is_comma host)

abbrev pub all_clean : Env → List String → Bool
all_clean e none_left = true
all_clean e (and_then host hosts) = is_clean e host && all_clean e hosts

-- `",".join` of the host and the others.
abbrev pub join_commas : String → List String → String
join_commas host none_left = host
join_commas host (and_then next hosts) = host ++ ("," ++ join_commas next hosts)

split_commas-last : (s : String) → any_char is_comma s ≡ false → split_commas s ≡ (s, none_left)
unfolding split_commas any_char
split_commas-last [] h = refl
split_commas-last (c ∷ s) h = ground (arith, split_commas-last s)

split_commas-comma :
    (s : String) → split_commas ("," ++ s) ≡ ("", and_then (split_commas s).0 (split_commas s).1)
unfolding split_commas
split_commas-comma s = rw (cons-append, nil-append) refl

split_commas-append :
    (p s : String)
    → any_char is_comma p ≡ false
    → split_commas (p ++ ("," ++ s)) ≡ (p, and_then (split_commas s).0 (split_commas s).1)
unfolding split_commas any_char
split_commas-append [] s h = rw nil-append (split_commas-comma s)
split_commas-append (c ∷ p) s h = rw cons-append (ground (arith, split_commas-append p s))

split_commas-join :
    (e : Env) (host : String) (hosts : List String)
    → all_clean e (and_then host hosts) ≡ true
    → split_commas (join_commas host hosts) ≡ (host, hosts)
split_commas-join e host none_left h = split_commas-last host (ground arith)
split_commas-join e host (and_then next hosts) h =
    ground
      (arith, split_commas-append host (join_commas next hosts), split_commas-join e next hosts)

host_of-clean :
    (e : Env) (host : String) (hosts : List String)
    → is_clean e host ≡ true
    → host_of e host hosts ≡ and_then host hosts
unfolding host_of
host_of-clean e host hosts h = ground (arith, eq_iff (strip host) host, eq_iff (e.lower host) host)

hosts_of-clean :
    (e : Env) (hosts : List String) → all_clean e hosts ≡ true → hosts_of e hosts ≡ hosts
unfolding hosts_of
hosts_of-clean e none_left h = refl
hosts_of-clean e (and_then host hosts) h =
    ground (arith, host_of-clean e host hosts, hosts_of-clean e hosts)

truthy-join_commas :
    (host : String) (hosts : List String)
    → truthy host ≡ true
    → truthy (join_commas host hosts) ≡ true
truthy-join_commas host none_left h = h
truthy-join_commas host (and_then next hosts) h =
    truthy-append host ("," ++ join_commas next hosts) h

-- Hosts that are not blank, of lower case, without spaces around them and without commas are read
-- back from their list with commas between them, in their order.
pub parse_allowed_receiver_hosts-join_commas :
    (e : Env) (host : String) (hosts : List String)
    → all_clean e (and_then host hosts) ≡ true
    → parse_allowed_receiver_hosts e (some (join_commas host hosts)) ≡ and_then host hosts
unfolding parse_allowed_receiver_hosts
parse_allowed_receiver_hosts-join_commas e host hosts h = ground (
  arith,
  truthy-join_commas host hosts,
  split_commas-join e host hosts,
  hosts_of-clean e hosts,
  host_of-clean e host hosts,
)
