-- ===== src/Petrinet/Path.antt =====
-- `NetPath` of src/petrus/impetus/petrinet/schema.py as text, and the order `sorted(..., key=str)`.
pub mod Spelling
use Prim.Native.Char.{Char, code}
use Prim.Native.String.{◌++◌ as append}
use petrus.Base.{
  String, Bool, true, false, ◌&&◌, List, [], ◌∷◌, ltb, ◌==◌, nat_eq, if◌then◌else◌, string_eq, not,
  any, Result, ok, err, guard, ◌>>◌,
}
use petrus.Petrinet.Token.{NetPath}

-- `".".join(self)`
unfoldable pub dotted : NetPath → String
dotted [] = ""
dotted (s ∷ []) = s
dotted (s ∷ t ∷ rest) = append s (append "." (dotted (t ∷ rest)))

-- `value.split(".")`
abbrev pub with_char : Char → List String → List String
with_char c [] = String.◌∷◌ c "" ∷ []
with_char c (w ∷ ws) = String.◌∷◌ c w ∷ ws

unfoldable pub split_dots : String → List String
split_dots String.[] = "" ∷ []
split_dots (String.◌∷◌ c s) =
    let rest = split_dots s in if code c == b'.' then "" ∷ rest else with_char c rest

-- What `NetPath` is called on: an address, or its dotted text.
pub data Destination : Type 0 where
  address : NetPath → Destination
  spelled : String → Destination

pub data PathError : Type 0 where
  bad_path : String → PathError

-- `NetPath.__new__`: no segment of a text is empty.
unfoldable pub net_path : Destination → Result PathError NetPath
net_path (address p) = ok p
net_path (spelled s) =
    guard (not (any (λ w. w == "") (split_dots s))) (bad_path s) >> ok (split_dots s)

-- Python's `<=` on texts: by code points.
unfoldable pub text_leb : String → String → Bool
text_leb String.[] b = true
text_leb (String.◌∷◌ c a) String.[] = false
text_leb (String.◌∷◌ c a) (String.◌∷◌ d b) =
    let rest = text_leb a b in if ltb (code c) (code d) then true else (code c == code d && rest)

unfoldable pub insert_sorted : NetPath → List NetPath → List NetPath
insert_sorted p [] = p ∷ []
insert_sorted p (q ∷ qs) =
    let rest = insert_sorted p qs in if text_leb (dotted p) (dotted q) then p ∷ q ∷ qs else q ∷ rest

-- `sorted(paths, key=str)`
unfoldable pub sorted : List NetPath → List NetPath
sorted [] = []
sorted (p ∷ ps) = insert_sorted p (sorted ps)
