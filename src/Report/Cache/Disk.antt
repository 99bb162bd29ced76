-- ===== src/Report/Cache/Disk.antt =====
-- The files of a disk, as the cache uses them. A file is named by a directory and its path from there,
-- which holds a slash if the file lies in a directory of that directory. A name alone, as
-- `os.RemoveAll` is given it, is one in the working directory. What a file holds is of any type.
pub mod Laws
pub mod Paths
use medik8s_system_tests.Base.{
  ◌≡◌, refl, Bool, true, false, not, ◌&&◌, ◌||◌, List, [], ◌∷◌, ◌++◌, if◌then◌else◌, ◌==◌,
}
use medik8s_system_tests.Go.Strings.{Text, codes, text_eq, has_prefix}

pub record File {ℓ} (C : Type ℓ) : Type ℓ where
  pub directory : Text
  pub name : Text
  pub is_regular : Bool
  pub content : C

unfoldable pub has_slash : Text → Bool
has_slash [] = false
has_slash (c ∷ name) = (c ∷ []) == codes "/" || has_slash name

-- What the path of each file in or below a directory starts with.
unfoldable pub with_slash : (directory : Text) → Text
with_slash directory = if directory == codes "/" then directory else directory ++ codes "/"

module _ {ℓ} {C : Type ℓ} where
  abbrev pub path_of : File C → Text
  path_of file = with_slash file.directory ++ file.name

  -- `os.ReadDir`, of which the source passes over what is not a file of the directory itself.
  unfoldable pub read_dir : Text → List (File C) → List (File C)
  unfolding has_slash
  read_dir directory [] = []
  read_dir directory (file ∷ files) =
      let rest = read_dir directory files in
      if file.directory == directory && not (has_slash file.name) then file ∷ rest else rest

  abbrev pub is_at : (directory name : Text) → File C → Bool
  is_at directory name file = file.directory == directory && file.name == name

  -- The file is what the path names, or lies below it.
  unfoldable pub is_under : (path : Text) → File C → Bool
  unfolding with_slash has_prefix
  is_under path file = path_of file == path || has_prefix (path_of file) (path ++ codes "/")

  -- What `os.RemoveAll` of a name in a directory leaves: it removes the path and all that lies below it,
  -- but for the files that stay when it fails.
  unfoldable pub remove_all :
      (stays : File C → Bool) → (directory name : Text) → List (File C) → List (File C)
  unfolding is_under
  remove_all stays directory name [] = []
  remove_all stays directory name (file ∷ files) =
      let rest = remove_all stays directory name files in
      if is_under (with_slash directory ++ name) file && not (stays file) then rest else file ∷ rest

  unfoldable pub has_file : (directory name : Text) → List (File C) → Bool
  has_file directory name [] = false
  has_file directory name (file ∷ files) =
      is_at directory name file || has_file directory name files

  unfoldable pub overwrite : (directory name : Text) → C → List (File C) → List (File C)
  overwrite directory name content [] = []
  overwrite directory name content (file ∷ files) =
      (if is_at directory name file then record file { content = content } else file)
      ∷ overwrite directory name content files

  abbrev pub new_file : (directory name : Text) → C → File C
  new_file directory name content = record {
    directory = directory;
    name = name;
    is_regular = true;
    content = content;
  }

  -- `os.Create` and what is written: a file that is there gets the new content.
  unfoldable pub write_file : (directory name : Text) → C → List (File C) → List (File C)
  unfolding has_file overwrite
  write_file directory name content files =
      if has_file directory name files
      then overwrite directory name content files
      else files ++ (new_file directory name content ∷ [])

  -- What `os.RemoveAll` of a directory leaves.
  unfoldable pub remove_directory :
      (stays : File C → Bool) → (directory : Text) → List (File C) → List (File C)
  unfolding with_slash has_prefix
  remove_directory stays directory [] = []
  remove_directory stays directory (file ∷ files) =
      let rest = remove_directory stays directory files in
      if has_prefix (path_of file) (with_slash directory) && not (stays file)
      then rest
      else file ∷ rest
