-- ===== src/Scim/Url.antt =====
-- app/scim/authentik.py: the base of a URL without its last slashes.
use Prim.Native.Char.{code}
use Prim.Native.String.{String, [], ◌∷◌}
use ssf_transmitter.Prelude.{◌==◌, nat_eq, if◌then◌else◌, truthy}

-- `url.rstrip("/")`
unfoldable pub rstrip_slash : String → String
rstrip_slash [] = []
rstrip_slash (c ∷ s) =
    let rest = rstrip_slash s in
    if truthy rest then c ∷ rest else if code c == 47 then [] else c ∷ []
