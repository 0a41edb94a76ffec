-- ===== src/Lib.antt =====
-- A verification library for the C code of this repository: the SQLite examples under
-- The_Definitive_Guide_to_SQLITE/ch01/examples and the PostgreSQL functions under
-- Greenplum/functions/c.
--
-- The parts and the files that model them:
-- - CText: C strings and what the code uses of the C library on them (`strcmp`, `strncmp`,
--   `strchr`, `atoi`, `toupper`, formats of `printf`). A `char*` is the list of its bytes.
-- - Sqlite: the SQLite library as a parameter, a record of its types and of the calls that the
--   examples make.
-- - Util: The_Definitive_Guide_to_SQLITE/ch01/examples/common/util.c. `print_sql_result` prints a
--   table that `sqlite3_get_table` filled in; `convert_string` with its two callers;
--   `event_description`; `execute`, `drop_table` and `print_error` in Util/Statements;
--   `print_stmt_result` in Util/Result. Util/Case, Util/Widths and Util/Events prove what they do.
-- - OracleDate: capi_ext/oracle_date.c, and the collation and the two SQL functions of
--   capi_ext/collate.c, which call it; `uppercase` of Util is used for month names. PCRE is a
--   parameter. OracleDate/Regex states what is assumed of it on the one pattern; OracleDate/Search
--   is a search that meets this. OracleDate/Parse, Iso, Order, Collation and Functions hold the
--   proofs.
-- - StrictTyping: capi_ext/strict_typing.c, as functions from a database and the calls on the SQL
--   function's context to the same. StrictTyping/Columns is about the loop over a table's columns,
--   StrictTyping/Triggers about the two triggers of a column. StrictTyping/Validate holds the two
--   validations and what they accept, by CText/Strtol, which is about `strtol`.
--   StrictTyping/Example is a small SQLite that meets what is assumed.
-- - Authorizer: the callbacks `auth` of capi/authorizer.c and capi/auth_trans.c, which print
--   `event_description` of Util.
-- - Greenplum: add_func.c, 35.9.7.c and 35.9.9.c of Greenplum/functions/c, `add_for` of its
--   rg_test/rg.c, and in Greenplum/Texts the texts of its v1.c. A set-returning function is one
--   call, from the context that the server keeps; Greenplum/Calls makes successive calls.
-- - Aggregate: capi_ext/aggregate.c, and Political: the collation of capi_ext/political.c.
-- - Fourier: DFT, IDFT, FFT_remap and FFT of Greenplum/functions/c/rg_test/rg.c, over a parameter
--   for the arithmetic of `double`. An array is a function from its indices. Fourier/Order reverses
--   the bits of an index, Fourier/Remap is about FFT_remap, Fourier/Stages and Fourier/Blocks about
--   one stage of the loops of FFT, Fourier/Transform about all of them, Fourier/Fft about the
--   whole. Fourier/Exact states the laws of exact arithmetic, Fourier/Sums and Fourier/Root draw
--   from them what is needed of sums and of roots of unity, and Fourier/Dft compares FFT with DFT;
--   Fourier/Geometric and Fourier/Inverse are about the transform that undoes another, and
--   Fourier/RoundTrip about IDFT; Fourier/Conjugate, Fourier/Halves and Fourier/Hartley are about
--   conjugates, about real numbers packed in pairs and about sums of real and imaginary parts, for
--   SerialFft; Fourier/Example is an exact arithmetic for runs, the integers with quarter turns.
-- - ParallelFft: `ccopy`, `cffti`, `step` and `cfft2` of
--   Greenplum/functions/c/fourier_transform/fft_parallel/openmp/fft_openmp.c, over the same
--   parameter for `double`. ParallelFft/Stores and ParallelFft/Step are about the stores that
--   `step` makes, ParallelFft/Threads and ParallelFft/Schedule about the threads that make them,
--   and ParallelFft/Partial, ParallelFft/Passes, ParallelFft/Rounds and ParallelFft/Cfft2 about the
--   passes of `cfft2`; ParallelFft/RoundTrip is about its two directions. A thread's stores follow
--   one another in the order of the code; what it reads no thread writes.
-- - MpiFft: `shuffle`, `evaluate` and the division of the work among the processes in `fft_main` of
--   Greenplum/functions/c/fourier_transform/fft_parallel/mpi/fft_mpi.c. What MPI delivers is a
--   parameter; each process has its own copies of the globals. The arrays have 4096 and 8192
--   elements, and a write behind them is a fault. MpiFft/Shuffle is about `shuffle`,
--   MpiFft/Polynomial and MpiFft/Evaluate about the values of polynomials that `evaluate` computes,
--   MpiFft/Gather about the ranges of the processes and their collection, and MpiFft/Transform
--   about the whole.
-- - FftUtils: `dsp_max_min_val`, `ones_32` and `floor_log2_32` of
--   Greenplum/functions/c/fourier_transform/fft_serial/fft_utils.c; FftUtils/Log is about the last
--   two.
-- - SerialFft: `fft`, `fft_real`, `ifft` and `ifft_real` of
--   Greenplum/functions/c/fourier_transform/fft_serial/fft.c and their tables, over the same
--   parameter for the arithmetic of `float`. SerialFft/Carry is about the counter of its sorting,
--   SerialFft/Rounds and SerialFft/Sorted about the array that it leaves, and SerialFft/Stage,
--   SerialFft/Loops and SerialFft/Serial about the loops that follow. The tables are an argument,
--   and so is what stands behind them; for the sizes of the theorems nothing behind them is read.
--   Where a theorem is about exact values it takes tables of exact values, which the literals of
--   six digits are not beyond the first two entries; SerialFft/Literals says how near they are, and
--   SerialFft/Decimation what `fft` computes with any tables, in any arithmetic. SerialFft/Ifft
--   models `ifft` and is about it. SerialFft/Real models `fft_real` and `ifft_real`;
--   SerialFft/Pack, Decompose and Parts are about the loops of `fft_real`, SerialFft/HalfSize about
--   the transform of half the size in it, SerialFft/RealFft about the whole, SerialFft/IfftReal
--   about `ifft_real`, and SerialFft/Example holds table entries for runs.
-- - Spi: `execq` of Greenplum/functions/c/spi_exeq.c and `fft_main` of its
--   fourier_transform/fft_serial/main.c, which reads numbers from a table and calls `fft_real` of
--   SerialFft. What the server answers to the query is an argument, `sscanf` a parameter.
--   Spi/RowText is about the text of a row, Spi/Reports about the messages of `execq`, and
--   Spi/Transform about the numbers that `fft_main` reads and their transform.
-- - DataProcessor: `data_processor_run` of
--   Greenplum/functions/c/fourier_transform/kissfft/data_processor.c with all that it calls;
--   `kiss_fft` is a parameter. DataProcessor/Peak is about the peak that it finds.
-- - Common: names of the libraries passed on, lists, integers with the laws of their ring, and
--   loops.
--
-- State is passed explicitly. A fault of C, such as a null pointer that is followed, is `none`; a
-- local variable that C does not initialise is an argument. Memory that `malloc` gives is a value,
-- and `malloc` does not fail. An `int32` of the PostgreSQL functions is a word below 2^32 with its
-- wrap-around, as with `-fwrapv`. `FFT` of rg.c also reorders its input in place, as FFT_remap
-- does; what it leaves there is not among its results.
--
-- Bounds and fuel: the loop over a table's columns runs on fuel, of which one unit more than the
-- table has columns is enough; the printing of decimal digits runs on the number itself; the loop
-- of `print_stmt_result` runs on fuel, of which one unit more than the statement has rows is
-- enough; successive calls of a set-returning function run on fuel, of which one unit more than
-- there are rows is enough; FFT_remap and the loop that counts the halvings run on fuel, of which
-- one unit more than the logarithm of the size is enough; the counter of the sorting of SerialFft
-- runs on fuel for as many rounds as there are binary digits in an index; `evaluate` runs on fuel,
-- of which one unit more than the halvings of the length is enough; `ones_32` runs on fuel, of
-- which one unit more than the word has digits is enough.
--
-- Not modelled: spi.c, c_permutations_x.c and c_reverse_tuple.c of Greenplum/functions/c, which do
-- not compile; `main` and `setup` of the examples, which only call the library and print; the
-- SQLite and PCRE sources in the repository, which are copies of other projects; the programs in
-- other languages; copies of the transforms under fft_parallel/mpi/fft_mpi1.c and others, which
-- have the same algorithms; the rest of the Fourier transforms under
-- Greenplum/functions/c/fourier_transform.
pub mod Common
pub mod CText
pub mod Sqlite
pub mod Util
pub mod OracleDate
pub mod StrictTyping
pub mod Authorizer
pub mod Aggregate
pub mod DataProcessor
pub mod FftUtils
pub mod Fourier
pub mod Greenplum
pub mod MpiFft
pub mod ParallelFft
pub mod Political
pub mod SerialFft
pub mod Spi
