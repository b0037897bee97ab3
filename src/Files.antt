-- ===== src/Files.antt =====
-- src/utils/file_system/*: FileSystem, LocalFileSystem and FileUtils. A text is the bytes of a file.
use model_inference_server.Common.{
  String, Bool, true, false, Option, none, some, List, [], ◌∷◌, ◌++◌, ◌≡◌, refl, if◌then◌else◌, ℤ,
  negsuc,
}
use model_inference_server.Outcome.{Outcome, returns, ◌>>=◌}

-- What a directory iterator shows of an entry.
pub record DirectoryEntry : Type 0 where
  pub filename : String
  pub is_directory : Bool
  pub is_regular_file : Bool

-- boost::filesystem and the file streams at one moment. `append` is the path's operator/, and
-- `open_file` the text behind an ifstream, if it opens.
pub record Boost : Type 0 where
  pub exists : String → Bool
  pub directory_iterator : String → Outcome (List DirectoryEntry)
  pub append : String → String → String
  pub last_write_time : String → Outcome ℤ
  pub open_file : String → Option String

-- The abstract class FileSystem. DownloadFile returns its flag and the local path.
pub record FileSystem : Type 0 where
  pub exist_path : String → Bool
  pub get_directory_sub_dirs : String → Outcome (List String)
  pub combine_path : String → List String → String
  pub get_directory_files : String → Outcome (List String)
  pub read_file_text : String → String
  pub get_last_modified_time : String → Outcome ℤ
  pub download_file : String → Bool × String

-- The two loops over directory_iterator.
unfoldable pub directories : List DirectoryEntry → List String
directories [] = []
directories (p ∷ ps) =
    let rest = directories ps in if p.is_directory then p.filename ∷ rest else rest

unfoldable pub regular_files : List DirectoryEntry → List String
regular_files [] = []
regular_files (p ∷ ps) =
    let rest = regular_files ps in if p.is_regular_file then p.filename ∷ rest else rest

module _ (boost : Boost) where
  -- p = p / part, for each part
  unfoldable pub append_parts : String → List String → String
  append_parts p [] = p
  append_parts p (part ∷ parts) = append_parts (boost.append p part) parts

  unfoldable pub read_text : Option String → String
  read_text (some text) = text
  read_text none = ""

  modified_time : Bool → String → Outcome ℤ
  modified_time true path = boost.last_write_time path
  modified_time false path = returns (negsuc 0)

  unfoldable pub local_file_system : FileSystem
  unfolding directories regular_files append_parts read_text modified_time
  local_file_system = record {
    exist_path = boost.exists;
    get_directory_sub_dirs =
        λ path. boost.directory_iterator path >>= λ ps. returns (directories ps);
    combine_path = append_parts;
    get_directory_files =
        λ path. boost.directory_iterator path >>= λ ps. returns (regular_files ps);
    read_file_text = λ path. read_text (boost.open_file path);
    get_last_modified_time = λ path. modified_time (boost.exists path) path;
    download_file = λ path. (true, path);
  }

  -- FileUtils::GetFileSystem: the local file system, whatever the path.
  unfoldable pub get_file_system : String → FileSystem
  get_file_system path = local_file_system

  unfoldable pub exist_path : String → Bool
  unfolding get_file_system local_file_system
  exist_path path = (get_file_system path).exist_path path

  unfoldable pub get_directory_sub_dirs : String → Outcome (List String)
  unfolding get_file_system local_file_system
  get_directory_sub_dirs path = (get_file_system path).get_directory_sub_dirs path

  unfoldable pub combine_path : String → List String → String
  unfolding get_file_system local_file_system
  combine_path base parts = (get_file_system base).combine_path base parts

  unfoldable pub read_file_text : String → String
  unfolding get_file_system local_file_system
  read_file_text path = (get_file_system path).read_file_text path

  unfoldable pub get_directory_files : String → Outcome (List String)
  unfolding get_file_system local_file_system
  get_directory_files path = (get_file_system path).get_directory_files path

  unfoldable pub get_last_modified_time : String → Outcome ℤ
  unfolding get_file_system local_file_system
  get_last_modified_time path = (get_file_system path).get_last_modified_time path

  unfoldable pub download_file : String → Bool × String
  unfolding get_file_system local_file_system
  download_file path = (get_file_system path).download_file path

  -- Combining in two goes is combining at once.
  pub combine_path-append :
      (base : String) (xs ys : List String)
      → combine_path base (xs ++ ys) ≡ combine_path (combine_path base xs) ys
  unfolding combine_path
  combine_path-append base [] ys = refl
  combine_path-append base (x ∷ xs) ys = combine_path-append (boost.append base x) xs ys
