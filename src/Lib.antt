-- ===== src/Lib.antt =====
-- planetariumfd: a program that finds faces in a camera's video, follows each face over time, and saves
-- the image and the videos of a face that is gone; and a converter of the saved videos.
--
-- The parts and how they interact. The main program (planetariumfd/Detector/PlanetariumFD.cpp, with
-- facedet.cpp and capture.cpp; Player.antt) reads frames and hands each, with the rectangles found in
-- it, to `FdProcessFaces` (Detector/FaceProcessor.cpp; Process.antt). That appends the frame to the
-- history (History.antt) and updates the threads of faces (Thread.antt, Tracker.antt and Tracker/: part
-- 1 is Tracker/Match.antt, `processThreads2` is `process_threads`). A thread that misses too many frames
-- moves to the list of threads being serialized, where a saving thread works on it (SaveThread.antt),
-- with gaps filled (Missing.antt: `addMissingFrames`) and coordinates smoothed (Smooth.antt, by the
-- convolutions of Detector/fd_util.h in Convolution.antt); the file is registered with a server
-- (Detector/RegisterOutput.cpp; Register.antt). Meanwhile `pruneHistory` erases frames that no thread
-- needs. System.antt is the interleaving of the three kinds of threads of control as a step relation:
-- a step ends where its thread takes or leaves a lock or sleeps, and a stretch without a lock is one
-- step, so `processThreads2` is `match_frame`, a step for each `deleteThread`, and one for its part 3.
-- In Player.antt the other threads make such steps between the rounds. Saver.antt has the steps of
-- one saving thread, a round of a copying loop at a time, and Saver/Watched.antt puts them among those of
-- all the others. Settings come from ini
-- files (CommonLib/ConfigIni.cpp in Ini.antt; Detector/FaceProcessorConfig.h in Config.antt). The
-- converter (CConverter/CConverter.cpp; Converter.antt) is a program of its own.
--
-- State. The global variables of FaceProcessor.cpp are the record `Fd` of State.antt; a function that
-- changes them takes and returns it. The lists are lists, `gThreads_beingSerialized` with the addresses
-- of its elements, since a saving thread is given one. An image is a record, and `none` where it has been
-- released. Definitions keep the names of the sources in lower case.
--
-- Faults. `none` stands for undefined behaviour, an assertion that fails or an exception that ends the
-- program; that a result is `some` says that none of these occurs.
--
-- Numbers. Frame numbers, counters and sizes are whole numbers; that the frame counter does not pass
-- `INT_MAX` is a hypothesis where it matters, other sums of `int` are taken as exact. `%d` stores an
-- `int` of 32 bits; what it stores for a larger number is a parameter. A `float` is a
-- parameter (Float.antt), with IEEE laws as a hypothesis where one is used, and Float/Fixed.antt is
-- an instance for the tests.
--
-- Loops are recursion on the lists they run over, or on the number of their rounds, which follows from
-- the bounds in the source, so no fuel can run out. `decimal` has fuel for the 20 digits of a `long`, and
-- `run_alone` of Saver.antt is given the number of steps that is proved to be enough.
--
-- Parameters. OpenCV (detector, image and video files), Windows (directory, ini files), the parsing of
-- floats, the database and the processes started are arguments: `Platform`, `Media`, `Answer`, and
-- functions.
--
-- Not modelled: steps of other threads while the history is played;
-- the camshift tracker and its example program (Detector/camshift_wrapper.cpp,
-- TrackFaces.cpp), which only wrap OpenCV; windows, drawing and the release of resources; the request
-- to the server itself; scripts, Flash files, libraries and data. The functions of SaveThread.antt run
-- without a break; that their steps among those of other threads come to the same is a theorem of
-- Saver/Refinement.antt. The increments of `image_series_cnt`, which has no lock, are taken as atomic.
--
-- Tests.antt and its children apply the theorems to concrete inputs.
pub mod Prelude
pub mod Float
pub mod Geometry
pub mod Ini
pub mod Config
pub mod Thread
pub mod Image
pub mod State
pub mod Tracker
pub mod History
pub mod Invariant
pub mod Process
pub mod System
pub mod Convolution
pub mod Missing
pub mod Smooth
pub mod Register
pub mod SaveThread
pub mod Saver
pub mod Converter
pub mod Player
pub mod Tests
