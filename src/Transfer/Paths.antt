-- ===== src/Transfer/Paths.antt =====
-- Paths and the file system, as the file receiver uses them through pathlib.
use linkable.Prelude.{
  ℕ, Bool, true, false, ◌||◌, none, some, List, [], ◌∷◌, ◌++◌, Text, Bytes, codes, nat_eqb,
  if◌then◌else◌, ◌==◌, nat_eq, list_eq,
}
use linkable.Prelude.Dict.{Dict, get, put, remove}
use linkable.Prelude.Exec.{Result, ok, err, Exec, value_error, file_not_found_error, os_error}

-- The components of a path, the final one first.
abbrev pub FilePath : Type 0
FilePath = List Text

abbrev pub slash : ℕ
slash = b'/'

unfoldable pub has_slash : Text → Bool
has_slash [] = false
has_slash (c ∷ cs) = nat_eqb c slash || has_slash cs

-- Path.name
unfoldable pub name : FilePath → Text
name [] = []
name (n ∷ parents) = n

-- The names that `with_name` refuses.
unfoldable pub bad_name : Text → Bool
unfolding has_slash
bad_name n = n == [] || n == codes "." || has_slash n

-- path.with_name(n)
unfoldable pub with_name : FilePath → Text → Result FilePath
unfolding bad_name
with_name [] n = err value_error
with_name (m ∷ parents) n = if bad_name n then err value_error else ok (n ∷ parents)

-- directory / n, for a text n without a slash: pathlib drops an empty component and ".".
unfoldable pub join : FilePath → Text → FilePath
join directory n = if n == [] || n == codes "." then directory else n ∷ directory

pub data Node : Type 0 where
  file : Bytes → Node
  dir : Node

abbrev pub FileSystem : Type 0
FileSystem = Dict FilePath Node

unfoldable pub exists : FileSystem → FilePath → Bool
exists fs p = elim (get fs p) [ none ↦ false | some n ↦ true ]

-- path.unlink(missing_ok=True)
unfoldable pub unlink : FilePath → Exec FileSystem (Unit {0})
unlink p fs = elim (get fs p) [
  | none ↦ (ok tt, fs)
  | some (file content) ↦ (ok tt, remove fs p)
  | some dir ↦ (err os_error, fs)
]

-- path.open("ab") and one write
unfoldable pub append : FilePath → Bytes → Exec FileSystem (Unit {0})
append p content fs = elim (get fs p) [
  | none ↦ (ok tt, put fs p (file content))
  | some (file before) ↦ (ok tt, put fs p (file (before ++ content)))
  | some dir ↦ (err os_error, fs)
]

-- path.open("rb") and a read to the end
unfoldable pub read_file : FilePath → Exec FileSystem Bytes
read_file p fs = elim (get fs p) [
  | none ↦ (err file_not_found_error, fs)
  | some (file content) ↦ (ok content, fs)
  | some dir ↦ (err os_error, fs)
]

-- path.replace(target), of two files: an existing target is overwritten
unfoldable pub replace : FilePath → FilePath → Exec FileSystem (Unit {0})
replace p target fs = elim (get fs p) [
  | none ↦ (err file_not_found_error, fs)
  | some dir ↦ (err os_error, fs)
  | some (file content) ↦ elim (get fs target) [
    | some dir ↦ (err os_error, fs)
    | _ ↦ (ok tt, put (remove fs p) target (file content))
  ]
]
