-- ===== src/Config/Laws.antt =====
-- `initConfig` of Detector/FaceProcessorConfig.h: the two distance thresholds.
use planetariumfd.Prelude.{pos, ◌≡◌, Text, codes, arith}
use planetariumfd.Float.{Float}
use planetariumfd.Ini.{Platform, get_ini_float}
use planetariumfd.Config.{Config, init_config, section_config}

module _ {F : Type 0} ⦃fl : Float F⦄ (os : Platform F) (filename : Text) (c : Config F) where
  -- Whatever the file says, `VERY_CLOSE_DIST_THRESH` keeps the value that it had, and
  -- `DIST_THRESH` ends as the setting for the very close distance: the number that the file gives
  -- for "VERY_CLOSE_DIST_THRESH", or, where it gives none, a quarter of its number for
  -- "DIST_THRESH" (of 100 where it gives none for that either).
  pub init_config-thresholds :
      let after = (init_config os filename c).1 in
      let given =
        get_ini_float os filename section_config (codes "DIST_THRESH") (fl.literal (pos 100) 1) in
      (after.very_close_dist_thresh ≡ c.very_close_dist_thresh)
      × (after.dist_thresh
          ≡ (get_ini_float os filename section_config
              (codes "VERY_CLOSE_DIST_THRESH")
              (fl.div given.1 (fl.literal (pos 4) 1))).1)
  unfolding init_config
  init_config-thresholds = ground arith
