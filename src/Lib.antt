-- ===== src/Lib.antt =====
-- SELF: programs and libraries that are stored as SQLite databases, and what starts them.
--
-- A `.self` file holds an ELF program as rows: `self_meta` (the ELF header's numbers), `segments`
-- (program headers and bytes), `symbols`, `relocations`, `needed`. The C programs of the
-- repository read those rows:
--   * loader/image.c opens a database and rebuilds the ELF file from its rows (`Loader.Db`,
--     `Loader.Image`), for the memfd mode and for the audit library;
--   * loader/audit.c answers the dynamic linker's searches from a database (`Loader.Audit`);
--   * loader/native.c maps the segments itself, maps the ELF interpreter from its file, builds the
--     initial stack and jumps (`Loader.Space`, `Loader.Stack`, `Loader.Native`);
--   * loader/selfld.c is a dynamic linker of its own: it maps a closure, collects the exports in one
--     table, and relocates every object (`Loader.Selfld`);
--   * loader/self-exec.c chooses the mode and executes the rebuilt image (`Loader.Exec`); its
--     accessors that die stand in `Loader.Db`;
--   * examples/server/server.c is a web server that is itself such a file: start-up
--     (`Server.Start`), the pool of workers (`Server.Pool`), a worker and its connections
--     (`Server.Worker`), the reading of a request (`Server.Request`), the handlers
--     (`Server.Handle`) over the tables (`Server.Database`), the texts that they assemble
--     (`Server.Buffer`, `Server.Render`, `Server.Json`, `Server.Button`), and the sending of an
--     answer (`Server.Http`).
--
-- How the code is modelled. SQLite is not part of the repository: a database is the record of the
-- answers to the queries that the code makes (`Db`, `ObjectDb`, `Resolver`), a column of 64 bits
-- is its bit pattern, and sums wrap at 2 ^ 64 where the code's do. The kernel, the allocator and
-- the C library's functions are parameters (`Kernel`, `Allocator`, `Host`, `Libc`, `Printer`,
-- `Sqlite`, `Texts`); the blocks that native.c and selfld.c take from malloc are asked of
-- `Kernel`. A function ends in `ok`, in `fail` (NULL, -1 or die()), or in `fault`, which is what C
-- leaves undefined: a read or write outside a block or a mapping. Memory is a function from
-- addresses to bytes; an address space adds the protection of each address; a file that is mapped
-- has zeros up to the end of its last page. A column that the code reads as an int is cut to 32
-- bits (`column_int`). A C string is a list of bytes without its NUL. The parent of the workers is
-- a step relation, in which the exit of a worker and a signal may come between any two of its
-- steps; a worker is a function of what `accept` gives, and a handler of the tables and the
-- connection.
--
-- `self_get_int`, `self_build_elf` and `self_materialize_memfd` are `get_int`, `build_elf` and
-- `materialize_memfd`; `map_segment`, `reserve_span`, `map_program`, `map_interp`, `build_stack`,
-- `run_native`, `map_object`, `relocate`, `run_selfld`, `buf_append`, `render`,
-- `sanitize_button`, `read_request`, `send_all` and `respond` keep their names.
--
-- Fuel. The write loop of the memfd runs on fuel as large as the image: each write takes a byte at
-- least. `render` runs on fuel as large as the page: a round takes four braces at least.
-- The doubling loop of `buf_append` runs on as many rounds as bytes are needed. The loops on
-- sockets run on fuel as large as what they read or send: a call without a byte ends them. The
-- theorems about them show that the fuel is enough.
--
-- Not modelled: the jump to the entry point (inline assembly), what is printed to the terminal, the
-- time of a row and the time that passes, the arrays of addresses that `build_stack` allocates, the
-- Python converter, and the build and test scripts.
pub mod Base
pub mod Loader
pub mod Server
pub mod Tests
