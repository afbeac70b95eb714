-- ===== src/Paths.antt =====
-- The functions of Go's path/filepath and strings packages by which master/internal/storage and
-- worker/internal/executor put paths together, on a system whose separator is `/`. They are part of
-- the language's library, and no definition here is code of the repository.
use Prim.Native.Nat.{suc}
use Prim.Native.Char.{Char, code}
use Prim.Native.String
use agentic_cloud_cluster.Base.{
  String, Bool, false, List, [], ◌∷◌, ◌==◌, ◌||◌, if◌then◌else◌, ltb, eqb, ◌≡◌, refl,
}

infixr 65 ◌⧺◌
abbrev pub ◌⧺◌ : String → String → String
a ⧺ b = String.◌++◌ a b

-- strings.Contains
unfoldable pub contains : String → String → Bool
contains s t = ltb (String.find s t) (suc (String.len s))

abbrev is_separator : Char → Bool
is_separator c = eqb (code c) b'/'

abbrev on_first : Char → List String → List String
on_first c [] = []
on_first c (part ∷ parts) = (String.◌∷◌ c part) ∷ parts

-- The parts between the separators, empty ones included.
unfoldable pub split_path : String → List String
split_path String.[] = "" ∷ []
split_path (String.◌∷◌ c s) =
    let rest = split_path s in if is_separator c then "" ∷ rest else on_first c rest

-- filepath.IsAbs
unfoldable pub is_abs : String → Bool
is_abs String.[] = false
is_abs (String.◌∷◌ c s) = is_separator c

-- One part of a path, on the parts kept so far, the last one first.
unfoldable pub push_part : Bool → List String → String → List String
push_part rooted [] part =
    if part == "" || part == "."
    then []
    else if part == ".."
    then (if rooted then [] else ".." ∷ [])
    else part ∷ []
push_part rooted (top ∷ kept) part =
    if part == "" || part == "."
    then top ∷ kept
    else if part == ".."
    then (if top == ".." then ".." ∷ top ∷ kept else kept)
    else part ∷ top ∷ kept

unfoldable pub push_parts : Bool → List String → List String → List String
unfolding push_part
push_parts rooted kept [] = kept
push_parts rooted kept (part ∷ parts) = push_parts rooted (push_part rooted kept part) parts

-- The parts of a path again, the last one first, with a separator between each two, before `tail`.
unfoldable pub glue : List String → String → String
glue [] tail = tail
glue (part ∷ kept) tail = glue kept (part ⧺ (if tail == "" then "" else "/" ⧺ tail))

-- filepath.Clean
unfoldable pub clean : String → String
unfolding is_abs push_parts split_path glue
clean path =
    let body = glue (push_parts (is_abs path) [] (split_path path)) "" in
    if is_abs path then "/" ⧺ body else if body == "" then "." else body

abbrev up_to_separator : String → String
up_to_separator String.[] = ""
up_to_separator (String.◌∷◌ c s) =
    let rest = up_to_separator s in
    if rest == "" then (if is_separator c then "/" else "") else String.◌∷◌ c rest

-- filepath.Dir
unfoldable pub dir : String → String
unfolding clean
dir path = clean (up_to_separator path)

-- filepath.Join of two elements
unfoldable pub join_path : String → String → String
unfolding clean
join_path a b = if a == "" then (if b == "" then "" else clean b) else clean (a ⧺ "/" ⧺ b)

clean_test : clean "a//b/./c/../d/" ≡ "a/b/d"
unfolding clean
clean_test = refl

clean_up : clean "../x/../.." ≡ "../.."
unfolding clean
clean_up = refl

join_test : join_path "/var/files" "../u" ≡ "/var/u"
unfolding join_path
join_test = refl

dir_test : dir "/var/u/task/a.txt" ≡ "/var/u/task"
unfolding dir
dir_test = refl
