-- ===== src/Config.antt =====
-- The detector's settings, Detector/FaceProcessorConfig.h: the global variables with their initial
-- values, and `initConfig`, which overwrites them one after the other from face_detect.ini.
use planetariumfd.Prelude.{ℕ, ℤ, pos, negsuc, Bool, true, List, [], Text, codes}
use planetariumfd.Float.{Float}
use planetariumfd.Ini.{Platform, get_ini_string, get_ini_int, get_ini_float}
pub mod Laws

pub record Config (F : Type 0) : Type 0 where
  pub min_frames_for_video : ℤ
  pub face_video_size : ℤ
  pub max_jpg_images_saved_per_thread : ℤ
  pub fps_speedup_factor : F
  pub initial_fps : F
  pub sample_time_every_x_frames : ℤ
  pub prune_faces_interval : ℤ
  pub o_path : Text
  pub max_allowed_missed_count : ℤ
  pub max_allowed_consecutive_misses : ℤ
  pub dist_thresh : F
  pub very_close_dist_thresh : F
  pub min_face_occurences_thresh : ℤ
  pub video_output_format : ℤ
  pub prune_history_every_ms : ℤ
  pub max_thread_history_size : ℤ

abbrev pub default_config_filename : Text
default_config_filename = codes "face_detect.ini"

abbrev pub section_config : Text
section_config = codes "config"

-- `CV_FOURCC_DEFAULT` of OpenCV's highgui.h
abbrev pub cv_fourcc_default : ℤ
cv_fourcc_default = negsuc 0

module _ {F : Type 0} ⦃fl : Float F⦄ where
  open fl use {literal, div}

  abbrev pub startup_config : Config F
  startup_config = record {
    min_frames_for_video = pos 12;
    face_video_size = pos 150;
    max_jpg_images_saved_per_thread = pos 1;
    fps_speedup_factor = literal (pos 1) 1;
    initial_fps = literal (pos 6) 1;
    sample_time_every_x_frames = pos 71;
    prune_faces_interval = pos 31;
    o_path = [];
    max_allowed_missed_count = pos 10;
    max_allowed_consecutive_misses = pos 3;
    dist_thresh = literal (pos 100) 1;
    very_close_dist_thresh = div (literal (pos 100) 1) (literal (pos 4) 1);
    min_face_occurences_thresh = pos 3;
    video_output_format = cv_fourcc_default;
    prune_history_every_ms = pos 1000;
    max_thread_history_size = pos 200;
  }

  module _ (os : Platform F) (filename : Text) where
    abbrev int_setting : Text → ℤ → ℤ
    int_setting key default_value = (get_ini_int os filename section_config key default_value).1

    abbrev float_setting : Text → F → F
    float_setting key default_value = (get_ini_float os filename section_config key default_value).1

    -- The calls in the order of the source, each with the global that it is given for its output. That
    -- for "VERY_CLOSE_DIST_THRESH" is `DIST_THRESH`, like the call before it.
    unfoldable pub init_config : Config F → Bool × Config F
    init_config c =
        let c1 = record c {
          o_path =
              (get_ini_string os filename section_config (codes "OUTPUT_DIR")
                (codes "C:\\xampp\\htdocs\\planetariumsvc\\files") c.o_path).1;
        } in
        let c2 = record c1 {
          min_frames_for_video = int_setting (codes "MIN_FRAMES_FOR_VIDEO") (pos 12);
        } in
        let c3 = record c2 { face_video_size = int_setting (codes "FACE_VIDEO_SIZE") (pos 200) } in
        let c4 = record c3 {
          max_jpg_images_saved_per_thread =
              int_setting (codes "MAX_JPG_IMAGES_SAVED_PER_THREAD") (pos 1);
        } in
        let c5 = record c4 {
          fps_speedup_factor = float_setting (codes "FPS_SPEEDUP_FACTOR") (literal (pos 1) 1);
        } in
        let c6 = record c5 {
          initial_fps = float_setting (codes "INITIAL_FPS") (literal (pos 4) 1);
        } in
        let c7 = record c6 {
          sample_time_every_x_frames = int_setting (codes "SAMPLE_TIME_EVERY_X_FRAMES") (pos 71);
        } in
        let c8 = record c7 {
          prune_faces_interval = int_setting (codes "PRUNE_FACES_INTERVAL") (pos 31);
        } in
        let c9 = record c8 {
          max_allowed_missed_count = int_setting (codes "MAX_ALLOWED_MISSED_COUNT") (pos 10);
        } in
        let c10 = record c9 {
          max_allowed_consecutive_misses =
              int_setting (codes "MAX_ALLOWED_CONSECUTIVE_MISSES") (pos 3);
        } in
        let c11 = record c10 {
          dist_thresh = float_setting (codes "DIST_THRESH") (literal (pos 100) 1);
        } in
        let c12 = record c11 {
          dist_thresh =
              float_setting (codes "VERY_CLOSE_DIST_THRESH")
                (div c11.dist_thresh (literal (pos 4) 1));
        } in
        let c13 = record c12 {
          min_face_occurences_thresh = int_setting (codes "MIN_FACE_OCCURENCES_THRESH") (pos 2);
        } in
        let c14 = record c13 {
          video_output_format = int_setting (codes "VIDEO_OUTPUT_FORMAT") cv_fourcc_default;
        } in
        let c15 = record c14 {
          prune_history_every_ms = int_setting (codes "PRUNE_HISTORY_EVERY_MS") (pos 1000);
        } in
        let c16 = record c15 {
          max_thread_history_size = int_setting (codes "MAX_THREAD_HISTORY_SIZE") (pos 200);
        } in
        (true, c16)
