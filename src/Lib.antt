-- ===== src/Lib.antt =====
-- Hyperion: ambient light from a picture to led colors.
--
-- The program takes pictures and colors from many sources, each on a priority channel. A picture is
-- searched for black borders and mapped to one color for each led; the priority muxer keeps the
-- colors of each channel until it times out; the core chooses the channel, adjusts its colors,
-- inserts cloned leds, puts the bytes into the order of the wire and writes them to the led device.
--
--   Muxer       libsrc/hyperion/PriorityMuxer.cpp: setInput is set_input, clearInput clear_input,
--               clearAll clear_all, setCurrentTime set_current_time. QMap is QMap, an association
--               list in ascending order. Invariant, Timeout, Runs and Inputs hold the proofs.
--   Border      include/blackborder/BlackBorderDetector.h: process, process_classic and process_osd,
--               whose loops are first_index and the tests of one column, row or diagonal pixel. Scan
--               and Detect hold the proofs.
--   Border.Processor
--               libsrc/blackborder/BlackBorderProcessor.cpp: updateBorder is update_border, process
--               is process_image. Stable, Open and Settle hold the proofs.
--   Adjust      libsrc/hyperion/MultiColorAdjustment.cpp (Multi), libsrc/utils/RgbTransform.cpp
--               (Transform) and libsrc/utils/RgbChannelAdjustment.cpp (Channel); Config is
--               createColorAdjustment of Hyperion.cpp. Weights, Bounds, Config and Leds hold the
--               proofs.
--   Leds        include/hyperion/LedString.h (Led), ImageToLedsMap.h and libsrc/hyperion/
--               ImageToLedsMap.cpp (ImageToLedsMap), ImageProcessor.h and ImageProcessor.cpp
--               (ImageProcessor). Area, Mean, BorderFits, Readable, Prepared and Safe hold the proofs.
--   Core        libsrc/hyperion/Hyperion.cpp: setColors is set_colors, clear, clearall, update,
--               setSourceAutoSelectEnabled and setCurrentSourcePriority as spelled. Core.Config has
--               createLedString, createLedStringClone and getLedLayoutGridSize. Layout, Channels,
--               Sources, Operations, Requests, Clear and Signals hold the proofs.
--   Forwarder   libsrc/hyperion/MessageForwarder.cpp and createMessageForwarder of Hyperion.cpp, which
--               the constructor of the core calls. Addresses holds the proofs.
--   Wire        the led buffer of update in libsrc/hyperion/Hyperion.cpp: clones, byte order, size.
--               Order and Buffer hold the proofs.
--   Smoothing   libsrc/hyperion/LinearColorSmoothing.cpp: updateLeds is update_leds, queueColors
--               queue_colors, switchOff switch_off. Queue, Moves and Steps hold the proofs.
--   Effects     libsrc/effectengine/EffectEngine.cpp with the core it runs for, and the register of
--               priorities of Hyperion.cpp: runEffect is run_effect, channelCleared channel_cleared,
--               effectFinished effect_finished; the signals of Core are delivered to it. Active, Runs,
--               Starts, Finishes and Reaches hold the proofs.
--   Boblight    libsrc/boblightserver/BoblightClientConnection.cpp with the core it sends colors to:
--               Text has the loop of readData as read_messages and the splitting of a message,
--               Connection has readData as read_data, handleMessage as handle_message and
--               socketClosed as socket_closed. Lines, Serves and Closes hold the proofs.
--   Devices     libsrc/leddevice: Apa102 is LedDeviceAPA102.cpp, Tpm2net and UdpE131 are
--               LedDeviceTpm2net.cpp and LedDeviceUdpE131.cpp, whose common loop over the bytes is
--               Packets, Sk6812Spi is LedDeviceSk6812SPI.cpp; Rgbw is libsrc/utils/RgbToRgbw.cpp.
--               Frame, Frames, Coding, Encoding, Strip and the children of Packets hold the proofs.
--   Resampler   libsrc/utils/ImageResampler.cpp: processImage is process_image; PixelFormat.h and
--               VideoMode.h of include/utils. Modes, Sizes, Reads, Rows and Samples hold the
--               proofs.
--   Schema      libsrc/utils/jsonschema/QJsonSchemaChecker.cpp, which checks the configuration and
--               the JSON messages: Json is the data, Checker the state with its messages and the
--               attributes, Validate the recursion. Conforms says independently which values a
--               schema allows; Outcome and Sound hold the proofs.
--   Image, Color, Components
--               include/utils/Image.h, ColorRgb.h and Components.h.
--   Prelude     tests on numbers, lists, integers, texts as bytes, and do blocks over options.
--
-- State is passed on explicitly: a method that changes its object returns the new one. An exception,
-- a failed assert, a division by zero and an access outside of an array or a picture are none; the
-- theorems say when there is none of these. The times that a method reads from the clock are its
-- arguments. Pictures hold bytes; the counters of the border processor and the offsets of pixels wrap
-- at 2^32, the sums of the means at the size of uint_fast16_t, which is a parameter. The priorities
-- and timeouts, int and int64_t, are integers without bounds: they are only compared, but for the sum
-- of a time and a timeout. Borders are below 2^31, so that twice a border does not wrap. There is
-- memory for all that is allocated but where a parameter stands for it.
--
-- All loops are structural recursion, on lists, on the schema, or on a number of rounds that the
-- source fixes before the loop, so that no fuel can run out, but for two. The loop of readData
-- takes as many rounds as the buffer has bytes, which is enough since each round takes one at
-- least. The digits of a number in a message of the schema checker take one more than the number,
-- which is enough since each digit divides it by ten.
--
-- Parameters: the operations on double and float (Adjust.Doubles, Leds.Led, Core.Config,
-- Smoothing) with the ranges of what they give, the doubles and the comparison of values in the
-- JSON library (Schema.Json), the reading of numbers from text (Boblight.Text, Forwarder),
-- std::sort on leds, the memory that malloc and new give, the address of a new effect, and the
-- content of uninitialised members. The instances whole and percent, and those of the tests, show
-- that they can hold.
--
-- Not modelled: the rest of the reading of the configuration, the Python scripts of the effects and
-- the files that define them, the other led devices (what the core writes is collected), the grabbers,
-- the servers for JSON, protocol buffers and UDP, the acceptance of Boblight clients, logging, and
-- vendored code.
pub mod Prelude
pub mod Color
pub mod Components
pub mod QMap
pub mod Muxer
pub mod Forwarder
pub mod Image
pub mod Boblight
pub mod Border
pub mod Adjust
pub mod Leds
pub mod Wire
pub mod Core
pub mod Smoothing
pub mod Devices
pub mod Effects
pub mod Schema
pub mod Resampler
