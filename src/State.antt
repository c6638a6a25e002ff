-- ===== src/State.antt =====
-- The global variables of Detector/FaceProcessor.cpp, and the entries of its lists.
use planetariumfd.Prelude.{
  ℕ, ℤ, negsuc, pos, List, [], Option, Text, ◌++◌, codes, Bool, map, leb, if◌then◌else◌, ◌&&◌, ◌||◌,
}
use planetariumfd.Float.{Float}
use planetariumfd.Image.{Image}
use planetariumfd.Geometry.{Rect, Face}
use planetariumfd.Ini.{Platform}
use planetariumfd.Config.{Config, startup_config, init_config, default_config_filename}
use planetariumfd.Thread.{FaceThread}

-- `struct FDHistoryEntry`. The sequence of faces is the entry's own copy; `none` is a released frame.
pub record HistoryEntry : Type 0 where
  pub frame_id : ℤ
  pub frame : Option Image
  pub faces_seq : List Rect

-- An element of `gThreads_beingSerialized`, with the address that `saveAndDeleteThread` is given.
pub record Saved : Type 0 where
  pub address : ℕ
  pub thread : FaceThread

pub record Fd (F : Type 0) : Type 0 where
  pub config : Config F
  pub processed_frame_counter : ℕ
  pub history : List HistoryEntry
  pub threads : List FaceThread
  pub being_serialized : List Saved
  -- The next address that the allocator hands out for a list node.
  pub next_address : ℕ
  pub faces_in_current_frame : List Face
  pub fd_time_seconds : ℤ
  pub estimated_fps : F
  pub frame_width : ℤ
  pub frame_height : ℤ
  pub image_series_cnt : ℕ
  pub base_ofilename : Text

-- The globals when the program starts.
abbrev pub startup : {F : Type 0} ⦃fl : Float F⦄ → Fd F
startup ⦃fl⦄ = record {
  config = startup_config;
  processed_frame_counter = 0;
  history = [];
  threads = [];
  being_serialized = [];
  next_address = 0;
  faces_in_current_frame = [];
  fd_time_seconds = pos 0;
  estimated_fps = fl.literal (negsuc 0) 1;
  frame_width = negsuc 0;
  frame_height = negsuc 0;
  image_series_cnt = 0;
  base_ofilename = [];
}

-- `FdInit`: the settings are read and the frame rate is taken from them. `now` is the time, `stored`
-- says whether `cvCreateMemStorage` succeeded, `stamp` is what `date_and_time2string` appends. The
-- start of the pruning thread is the initial state of System.antt. Where it returns 0 it has neither
-- initialised the locks nor started that thread; Player.antt has what follows from that.
unfoldable pub fd_init :
    {F : Type 0} ⦃fl : Float F⦄ → Platform F → ℤ → Bool → Text → Fd F → ℤ × Fd F
fd_init os now stored stamp s =
    let c = (init_config os default_config_filename s.config).1 in
    let s' = record s { fd_time_seconds = now; config = c; estimated_fps = c.initial_fps } in
    if stored
    then (pos 1, record s' { base_ofilename = s.base_ofilename ++ stamp })
    else (pos 0, s')

-- `date_and_time2string` makes a date and a time fit for a file name: what is no letter and no digit
-- becomes an underscore.
abbrev is_alnum : ℕ → Bool
is_alnum c =
    (leb b'0' c && leb c b'9') || ((leb b'A' c && leb c b'Z') || (leb b'a' c && leb c b'z'))

unfoldable pub date_and_time_string : Text → Text → Text → Text
date_and_time_string str date time =
    let clean = map (λ (c : ℕ). if is_alnum c then c else b'_') in
    str ++ (clean date ++ (codes "__" ++ clean time))
