-- ===== src/Converter.antt =====
-- CConverter/CConverter.cpp: the program that turns recorded videos into flash videos and marks them in
-- the database. The database and the process that is started are parameters.
use planetariumfd.Prelude.{
  ℕ, zero, suc, ◌+◌, ℤ, pos, Bool, true, false, not, ◌||◌, List, [], ◌∷◌, ◌++◌, Option, none, some,
  ◌>>=◌, ◌>>◌, assert, length, get_elem?, ltb, leb, Text, codes, if◌then◌else◌, ◌==◌,
}
use planetariumfd.Ini.{Platform, get_ini_string, get_ini_cstring}
pub mod Laws

-- The settings, global variables of the program.
pub record Settings : Type 0 where
  pub media_path : Text
  pub ffmpeg_exe_path : Text
  pub ffmpeg_dir : Text
  pub sql_hostname : Text
  pub sql_user : Text
  pub sql_password : Text
  pub sql_db_name : Text

abbrev pub config_file_name : Text
config_file_name = codes "converter.ini"

abbrev pub section_config : Text
section_config = codes "config"

module _ {F : Type 0} (os : Platform F) where
  abbrev pub converter_setting : Text → Text → Text → Bool × Text
  unfolding get_ini_string
  converter_setting key default_value value =
      get_ini_string os config_file_name section_config key default_value value

  -- `initConfig`: without a media path or a directory of ffmpeg the program ends.
  unfoldable pub init_converter : Settings → Bool × Settings
  unfolding get_ini_string
  init_converter s =
      let (has_media, media) = converter_setting (codes "mediapath") [] s.media_path in
      let s1 = record s { media_path = media } in
      if not has_media
      then (false, s1)
      else (let (has_dir, dir) = converter_setting (codes "ffmegdir") [] s.ffmpeg_dir in
          let s2 = record s1 { ffmpeg_dir = dir } in
          if not has_dir then (false, s2) else (
            true,
            record s2 {
              sql_hostname =
                  (converter_setting (codes "sql_hostname") (codes "uninitialized")
                    s.sql_hostname).1;
              sql_user =
                  (converter_setting (codes "sql_user") (codes "uninitialized") s.sql_user).1;
              sql_password = (converter_setting (codes "sql_password") [] s.sql_password).1;
              sql_db_name =
                  (converter_setting (codes "sql_db_name") (codes "uninitialized") s.sql_db_name).1;
              ffmpeg_exe_path = dir ++ codes "\\ffmpeg.exe";
            },
          ))

-- What the client library reports for the query: no memory, no connection, an error of the query or
-- of its result, or rows, in which a field may be NULL.
pub data Answer : Type 0 where
  no_memory : Answer
  no_connection : Answer
  query_failed : Answer
  no_result : Answer
  fetched : (num_fields : ℕ) (rows : List (List (Option Text))) → Answer

-- The loop over the fields of a row; `none` is a string made from NULL, or a field past the end.
abbrev pub fetch_fields : ℕ → List (Option Text) → Option (List Text)
fetch_fields zero fields = some []
fetch_fields (suc n) [] = none
fetch_fields (suc n) (field ∷ fields) = do
  val ← field
  rest ← fetch_fields n fields
  some (val ∷ rest)

abbrev pub fetch_rows : ℕ → List (List (Option Text)) → Option (List (List Text))
fetch_rows n [] = some []
fetch_rows n (r ∷ rs) = do row ← fetch_fields n r; rest ← fetch_rows n rs; some (row ∷ rest)

-- `query`: the flag and the rows, which are appended to the list. Without a connection the flag is true.
unfoldable pub query : Answer → List (List Text) → Option (Bool × List (List Text))
query no_memory rows = some (false, rows)
query no_connection rows = some (true, rows)
query query_failed rows = some (false, rows)
query no_result rows = some (false, rows)
query (fetched n found) rows = do more ← fetch_rows n found; some (true, rows ++ more)

-- A process to start: the program, its command line and its directory.
pub record Launch : Type 0 where
  pub exe : Text
  pub command_line : Text
  pub directory : Text

-- `erase(0, find_last_of("\\") + 1)`: what stands behind the last backslash, all if there is none.
abbrev pub has_backslash : Text → Bool
has_backslash [] = false
has_backslash (c ∷ cs) = (c == b'\\') || has_backslash cs

abbrev pub file_name_of : Text → Text
file_name_of [] = []
file_name_of (c ∷ cs) =
    let rest = file_name_of cs in
    if has_backslash cs then rest else if c == b'\\' then cs else c ∷ cs

abbrev pub with_space : Text → Text
with_space [] = []
with_space (c ∷ cs) = if c == b' ' then c ∷ cs else b' ' ∷ (c ∷ cs)

-- `ExecuteProcess` up to the call of `CreateProcess`; its result is not used by `convert`.
unfoldable pub execute_process : Text → Text → Text → Launch
execute_process full_path parameters cur_dir = record {
  exe = full_path;
  command_line = file_name_of full_path ++ with_space parameters;
  directory = cur_dir;
}

abbrev pub media_file : Settings → Text → Text → Text
media_file s name suffix = s.media_path ++ (codes "\\" ++ (name ++ suffix))

-- The format string of `convert`, with its two files.
abbrev pub parameters_of : Text → Text → Text
parameters_of input output =
    codes " -y -i \""
    ++ (input
        ++ (codes "\" -f flv -an -vcodec flv -ar 44100 -s 360x288 \"" ++ (output ++ codes "\"")))

-- `convert`: `none` is a row of fewer than three fields, or `sprintf` past the end of the 1024
-- characters of its buffer, the last of which is for the NUL.
unfoldable pub convert : Settings → List Text → Option (Bool × Launch)
unfolding execute_process
convert s row = do
  name ← get_elem? row 2
  let params = parameters_of (media_file s name (codes ".avi")) (media_file s name (codes ".flv"))
  assert (ltb (length params) 1024)
  some (true, execute_process s.ffmpeg_exe_path params s.ffmpeg_dir)

-- What `update` sends, if it is connected and has a statement: `none` is a row without fields.
abbrev pub update_statement : List Text → Option Text
update_statement row = do
  id ← get_elem? row 0
  some (codes "UPDATE visuals SET mediasubtype=2 WHERE id=" ++ id)

-- `update`, by whether the library has memory, connects, and makes a statement. Its result is
-- `EXIT_FAILURE` or `EXIT_SUCCESS`, as a `bool`.
unfoldable pub update : (memory connected stmt : Bool) → List Text → Option (Bool × List Text)
update false connected stmt row = some (true, [])
update true false stmt row = some (false, [])
update true true false row = some (false, [])
update true true true row = do text ← update_statement row; some (false, text ∷ [])

-- What a round does, in order.
pub data Effect : Type 0 where
  started : (launch : Launch) → Effect
  executed : (statement : Text) → Effect

abbrev pub executed_all : List Text → List Effect
executed_all [] = []
executed_all (t ∷ ts) = executed t ∷ executed_all ts

-- The inner loop of `main`, over the rows; each is marked behind the process for it, whatever that
-- process came to.
unfoldable pub convert_rows :
    Settings → (memory connected stmt : Bool) → List (List Text) → Option (List Effect)
unfolding convert update
convert_rows s memory connected stmt [] = some []
convert_rows s memory connected stmt (row ∷ rows) =
    let rest = convert_rows s memory connected stmt rows in
    do
      (ok, launch) ← convert s row
      (code, statements) ← if ok then update memory connected stmt row else some (false, [])
      more ← rest
      some (started launch ∷ (executed_all statements ++ more))

-- One round of `while (true)`: the list is empty again behind it, so a round starts with no rows.
unfoldable pub convert_round :
    Settings → Answer → (memory connected stmt : Bool) → Option (List Effect)
unfolding query convert_rows
convert_round s answer memory connected stmt = do
  (ok, rows) ← query answer []
  convert_rows s memory connected stmt rows
