-- ===== src/Text/Paths.antt =====
-- The parts of Go's `path/filepath` that the program uses, for systems whose separator is the slash.
use Prim.Native.Char.{Char, code}
use Prim.Native.String.{[], ◌∷◌}
use kvm_manager.Base.{
  ℕ, ◌+◌, ltb, String, Bool, false, ◌&&◌, ◌||◌, Option, none, some, List, ◌==◌, eqb, if◌then◌else◌,
}
use kvm_manager.Text.{◌<>◌}
use kvm_manager.Text.Numbers.{split_on}
use mathlib.Core.List.{◌∷◌ as ◌∷ᴸ◌, [] as []ᴸ}

-- filepath.IsAbs
unfoldable pub is_abs : String → Bool
is_abs [] = false
is_abs (c ∷ s) = eqb (code c) 47

-- An element `..` after the elements of a path, which come last first.
go_up : Bool → List String → List String
go_up rooted []ᴸ = if rooted then []ᴸ else ".." ∷ᴸ []ᴸ
go_up rooted (top ∷ᴸ rest) = if top == ".." then ".." ∷ᴸ (top ∷ᴸ rest) else rest

push_element : Bool → List String → String → List String
unfolding go_up
push_element rooted done element =
    if element == "" || element == "."
    then done
    else if element == ".."
    then go_up rooted done
    else element ∷ᴸ done

push_elements : Bool → List String → List String → List String
unfolding push_element
push_elements rooted done []ᴸ = done
push_elements rooted done (element ∷ᴸ rest) =
    push_elements rooted (push_element rooted done element) rest

-- The elements with slashes between them, before a text.
join_elements : List String → String → String
join_elements []ᴸ s = s
join_elements (element ∷ᴸ []ᴸ) s = element <> s
join_elements (element ∷ᴸ (next ∷ᴸ rest)) s = join_elements (next ∷ᴸ rest) ("/" <> (element <> s))

-- filepath.Clean
unfoldable pub clean : String → String
unfolding push_elements join_elements is_abs
clean path =
    let rooted = is_abs path in
    let body = join_elements (push_elements rooted []ᴸ (split_on 47 path)) "" in
    if rooted then "/" <> body else if body == "" then "." else body

-- filepath.Join
unfoldable pub join : String → String → String
unfolding clean
join a b =
    if a == "" && b == ""
    then ""
    else if a == ""
    then clean b
    else if b == ""
    then clean a
    else clean (a <> ("/" <> b))

-- The last element that is not empty.
last_element : String → List String → String
last_element found []ᴸ = found
last_element found (element ∷ᴸ rest) = last_element (if element == "" then found else element) rest

-- filepath.Base
unfoldable pub base : String → String
unfolding last_element
base path =
    let element = last_element "" (split_on 47 path) in
    if path == "" then "." else if element == "" then "/" else element

-- What a search for an extension from the end of a path has met.
pub data Search : Type 0 where
  nothing_yet : Search
  separator : Search
  found : String → Search

search_char : Char → String → Search → Search
search_char c s nothing_yet =
    if eqb (code c) 47 then separator else if eqb (code c) 46 then found (c ∷ s) else nothing_yet
search_char c s separator = separator
search_char c s (found e) = found e

search_extension : String → Search
unfolding search_char
search_extension [] = nothing_yet
search_extension (c ∷ s) = search_char c s (search_extension s)

extension : Search → String
extension nothing_yet = ""
extension separator = ""
extension (found e) = e

-- filepath.Ext
unfoldable pub ext : String → String
unfolding search_extension extension
ext path = extension (search_extension path)

-- What follows a prefix of a text, as strings.HasPrefix and strings.TrimPrefix find it.
unfoldable pub after_prefix : String → String → Option String
after_prefix [] s = some s
after_prefix (c ∷ prefix) [] = none
after_prefix (c ∷ prefix) (d ∷ s) =
    let rest = after_prefix prefix s in if eqb (code c) (code d) then rest else none

-- The number of bytes of a text in UTF-8, which Go's `len` is.
unfoldable pub byte_length : String → ℕ
byte_length [] = 0
byte_length (c ∷ s) =
    (if ltb (code c) 128
      then 1
      else if ltb (code c) 2048
      then 2
      else if ltb (code c) 65536
      then 3
      else 4)
    + byte_length s
