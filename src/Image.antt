-- ===== src/Image.antt =====
-- OpenCV's `IplImage`, as far as the program reads it: its size, format, origin and pixels.
use planetariumfd.Prelude.{ℕ, ℤ, pos, List}

pub record Image : Type 0 where
  pub width : ℤ
  pub height : ℤ
  pub depth : ℤ
  pub channels : ℤ
  pub origin : ℤ
  pub pixels : List ℕ

-- `createFrameCopy` of Detector/FaceProcessor.cpp: an image with 8 bits in each of 3 channels, with
-- the size, the pixels and the origin of the given one.
unfoldable pub create_frame_copy : Image → Image
create_frame_copy img = record {
  width = img.width;
  height = img.height;
  depth = pos 8;
  channels = pos 3;
  origin = img.origin;
  pixels = img.pixels;
}
