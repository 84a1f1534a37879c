-- ===== src/Lib.antt =====
-- The C client of an LED map of the world: effects paint a grid of pixels, the pixels are copied to
-- the order of the layout, and an Open Pixel Control client sends them to the server that drives
-- the strips.
--
-- Parts and files:
--
-- - Prelude: tests, lists, C's signed numbers, and code that may fault. `Option` is the monad of
--   such code: `none` is an access out of bounds, and `Returns P` says that the code ends without a
--   fault with a result in `P`.
-- - Extension: the types and constants of src/extension.h. A double is its bit pattern.
-- - Pixel: src/pixel.c. A grid is the block that `grid_new` allocates and the offsets of its
--   columns. Pixel/Access and Pixel/Fill are about reads, writes, allocation and painting loops,
--   Pixel/Positions about `get_pos`, Pixel/ReadGrid about `read_grid_to_list`.
-- - Opc: src/opc/opc_client.c. The system calls are the fields of a `Kernel`, with the laws that
--   `send` takes no more than it is handed and that a bad descriptor is not connected. Opc/Strips
--   has the first half of `opc_put_pixel_list` and its proofs, Opc/Sinks `opc_resolve` and
--   `opc_new_sink`, with what `getaddrinfo` finds as an argument, Opc/NewSink their proofs,
--   Opc/Connect `opc_connect` and `opc_close`, Opc/Sending `opc_send`, Opc/Message the messages.
-- - Scroller: src/effects/scroller.c. Scroller/Shift is about `shift_columns`, Scroller/Tape about
--   any number of them, Scroller/Start about `get_scroller_effect`, Scroller/Frame about
--   `scroller_run`.
-- - Strtol: `strtol` of the C library as its documentation says, in the bases 0 and 10, on the
--   bytes of the string; Strtol/Decimal has the round trip of decimal numbers, Strtol/Atoi that of
--   `atoi`, which is the same in base 10 cut to an `int`.
-- - LinkedList: src/utils/list.c, on a heap from addresses to elements. LinkedList/Chain and
--   LinkedList/Links say what a well-formed list is, LinkedList/Walk is about `list_get` and
--   `list_enum`, LinkedList/Add, LinkedList/Remove and LinkedList/Delete about the changes.
-- - Csv: src/utils/csv.c. A round of the loop of `csv_parser_getRow` is `step`, on a record of its
--   locals. Csv/Bounds is about the buffers, Csv/Total about texts that end in a newline,
--   Csv/RoundTrip writes rows and reads them back, Csv/Parsers has the parsers and whole calls,
--   which Csv/Parsers/Rows is about. The files are an argument.
-- - Layout: `init_grid`, `init_geo` and `init_strip` of src/effect_runner.c, which read the files
--   of src/layout by Csv; `atof` is an argument. The pixels are the list of values that a list of
--   LinkedList stands for. Layout/Numbers is about its numbers, Layout/Rows about the rows of such
--   a file, Layout/Entries writes the files and Layout/Load is about the whole layout. The loops
--   have fuel for a round more than there are rows.
-- - CtrlServer: src/ctrlserver.c. The system calls are the fields of a `Peer`; the monad `Action`
--   passes the server's descriptor, a clock that each call moves on, and what was written, and ends
--   with a result, with `exit` or with a fault. CtrlServer/Command is `try_get_command`,
--   CtrlServer/Frame `read_ws_frame`, CtrlServer/Upgrade the answer to the HTTP request, and
--   CtrlServer/Rounds one round of the loop of each server, from the shared command to the shared
--   command. SHA-1 and base64 are arguments.
-- - EffectRunner: src/effect_runner.c, from the command to the effect, and one round of the main
--   loop. What the runner calls of the effects is a record of operations, `Effects`; a run may
--   change the frame's number. EffectRunner/Commands says which effect each command starts,
--   EffectRunner/Rounds what a round does.
-- - Program: the threads of src/effect_runner.c and src/ctrlserver.c as a step relation. A step
--   is one round of `server`, of `basic_server` or of the main loop, which meet in the shared
--   command. Program/Start is `main` up to its loop, which Program/Start/Startup is about.
--   Program/Safe is about every sequence of steps, over what the runner relies on of the
--   effects. Program/Own has the effects of src/effects by their own code, as the runner calls
--   them, with src/effects/python.c; `Resources` is what they get from outside. Program/Own/Kept
--   says what each of them keeps from frame to frame, Program/Own/Frames runs their frames,
--   Program/Own/Laws makes them and shows what the runner relies on, and Program/Own/Running is
--   about the whole program. Program/Own/Sample is for the tests.
-- - Image: src/effects/image.c; Image/White is about the picture that it starts with.
-- - SmallEffects: src/effects/alltest.c and src/effects/1test.c; SmallEffects/Lit says what they
--   show.
-- - Strings: `strtok` and `fgets` of the C library, as their documentation says; Strings/Tokens is
--   about numbers between delimiters.
-- - Process: the results of code that calls the operating system, and its monad; `Ends P` says that
--   the code returns, with a value and a state in `P`.
-- - Floats: the operations on doubles, which are an argument of the code that uses them.
-- - ApiManager: src/apimanager.c. The system calls are the fields of an `Internet`, which a clock
--   counts, and the calls of the JSON library those of a `Json`; `Traffic` is what the process did
--   with its sockets. ApiManager/Request is about one request and its answer.
-- - Weather: src/effects/weather.c. The buffers' first contents and printf of a double are
--   arguments. Weather/Palette has the colours, Weather/Palette/Colours is about them,
--   Weather/Fetch about one value from the network, Weather/Drawing about one pixel, Weather/Runs
--   about frames of `weather_run`, Weather/Logs about those of `weather_log_run`, Weather/Sending
--   about the message. Weather/Lines reads the lines
--   of the time lapse's file back, Weather/Place is about the place in it, Weather/Timelapse about
--   one frame of `weather_timelapse_run`, Weather/Passes about a pass over the positions;
--   Weather/Effects has the constructors, and Weather/Start the time lapse from its constructor on.
--   Weather/Sample is for the tests.
-- - Sunrise: src/effects/sunrise.c. `Floats` has the laws `Exact` there that whole numbers below
--   2^31 are exact; that of the opposite is about numbers below 0 alone. Sunrise/Lines reads the lines of the file back, Sunrise/Brightness tells day
--   from night in seconds, Sunrise/Painted is about `sun_get_pixel`, Sunrise/Clocks about the clock
--   and Sunrise/Frames about `sunrise_run`. Sunrise/Sample is for the tests.
-- - Samples: whole grids, layouts, networks, clients and effects for the tests.
--
-- What malloc returns for grids, lists of pixels, effects, the runner and its frame is an
-- argument, a `Bool` or an `Option` of a block with arbitrary contents. A failed allocation of
-- `csv_parser_getRow` or `init_grid`, which the code writes through without a test, is a fault;
-- whether there is memory for them is as it is for a whole run. The allocations of the parser
-- and of src/utils/list.c alone are taken to succeed. Loops that count are recursions on the
-- rounds left; the loop of `opc_send` has one unit of fuel for each byte and one more, and each
-- of its rounds but the last sends a byte; the loop of `grid_new` has 256.
--
-- The number of a frame, a `long`, is not bounded.
--
-- The number of pixels is not bounded, where `get_pos` counts them in an `int`.
--
-- Not modelled: what is printed, the release of memory, sleeping, assertions, failed allocations
-- of the control server, of `csv_parser_new` and in src/utils/list.c, and the setting up and
-- closing of the listening socket; src/projection.c, which needs transcendental functions; what
-- the scripts do that src/effects/python.c stands for; and the JSON library in src/parson, which
-- is a copy of another project's.
pub mod Prelude
pub mod Process
pub mod Extension
pub mod Floats
pub mod Pixel
pub mod Opc
pub mod Scroller
pub mod Strtol
pub mod LinkedList
pub mod Csv
pub mod Layout
pub mod CtrlServer
pub mod EffectRunner
pub mod Program
pub mod SmallEffects
pub mod Image
pub mod ApiManager
pub mod Strings
pub mod Sunrise
pub mod Weather
pub mod Samples
