-- ===== src/Lib.antt =====
-- A model of supernote-task-service: an HTTP service in Python that gives clients the tasks and task
-- lists of a Supernote device, which it reads and writes in the device's MariaDB database.
--
-- The files, and the code that each models (paths from the repository's root):
--
--   Common          names, Boolean tests, lists, integers and dictionaries that the parts share
--   Encoding        src/supernote_task_service/encoding.py: encode_emoji, decode_emoji, encode_detail,
--                   is_valid_id. Encoding/Clock has ms_to_datetime and datetime_to_ms, Encoding/Links
--                   the document links, Encoding/Hex and Encoding/Decimal Python's printing and
--                   reading of numbers. A text is the list of its code points.
--   Models          src/supernote_task_service/models.py: the data of the API, and the constraints of
--                   the request models as Boolean tests
--   Sql             the rows of t_schedule_task and t_schedule_task_group, and what the statements of
--                   repository.py do with them: clauses, assignments, SELECT with its join, order and
--                   limit, UPDATE. Sql/Laws states what is relied on of the server; Sql/Reference is
--                   a concrete server that keeps it.
--   Repository      src/supernote_task_service/repository.py: Repository/Mapping has _row_to_task and
--                   _row_to_list, Repository/TaskReads list_tasks and the reads of one task,
--                   Repository/TaskWrites create_task, update_task, set_status and delete_task,
--                   Repository/Lists the methods on lists. Repository/Sync and Repository/Writes hold
--                   the proofs.
--   Config          src/supernote_task_service/config.py: the settings, their defaults and validators
--   Database        src/supernote_task_service/db.py: the connection pool, one step for each access of a
--                   thread to the queue or the counter, its runs in any order of the threads, and
--                   close. Database/Users has the resolution of the exposed user and its cache.
--   RateLimit       src/supernote_task_service/ratelimit.py: the fixed-window limiter
--   Security        src/supernote_task_service/security.py, and api_key_hashes of config.py
--   Http            src/supernote_task_service/errors.py (Http/Failures), deps.py (Http/Deps), the
--                   handlers of routers/tasks.py and routers/lists.py (Http/Tasks, Http/Lists), and
--                   the middleware of main.py (Http/Middleware). Http/Service puts a handler behind
--                   its authentication, and has the error responses.
--   Api             all endpoints as one machine on the tables: a call is checked, goes to its handler,
--                   and is answered. Api/Evolution and Api/Steps say what a call may change,
--                   Api/WellFormed has the invariant of the tables, and Api/Replica a client that
--                   keeps a copy by incremental sync, among requests and other writers.
--                   Api/Blind says what its answers depend on, Api/Conflicts
--                   what becomes of a version that clients expect.
--   Service         the whole application: create_app of main.py, with the middleware around
--                   authentication, the API and the error responses
--   EntryPoint      src/supernote_task_service/__main__.py: what main passes to Uvicorn
--   Application     src/supernote_task_service/main.py, the start and the end of the application, and
--                   the probes of routers/health.py
--
-- State. The repository's state is the record of the two tables, and a method is a function from the
-- tables and its arguments to its result and the tables after it. A handler is a program in a small
-- monad over the tables that gives a value or the exception that it raises; handlers call the
-- repository as the code does. The limiter's state is its dictionary of windows. Every reading of a
-- clock and every new identifier is an argument of the operation that asks for it. A call of
-- get_user_id takes the cached user and what the database would answer at that moment.
--
-- Parameters. The server's collation, the order in which it gives rows, which matched rows it counts
-- as affected, and what a column keeps of a text (record Server, with its documented behaviour as
-- IsServer); base64, UTF-8, JSON and Pydantic's validation of a link (record Codec); the two
-- floating-point conversions of times, the second of which can raise (record Floats); the digest of
-- a key; and the ticks of the monotonic clock in a second. An operation that raises inside the
-- mapping of a row gives none.
--
-- Fuel. Hexadecimal numbers are printed with fuel for eight digits, which is enough for every code
-- point; decimal numbers with fuel one more than the number. A run of the pool is the
-- list of its steps. All other loops are structural.
--
-- A time that Python has no date for, past the year 9999, makes the mapping of its row raise. A
-- title is stored as its column keeps it; that a strict server refuses a statement with a title that
-- is too wide once it is encoded (an answer of 503, with the tables as they were) is not modelled,
-- and what is said of such titles is said under the condition that they fit. The rows of Sql have an
-- owner; that the column user_id may hold NULL is modelled where the code looks for it, in
-- Database/Users.
--
-- Not modelled: how the framework matches a path and reads a request (a body that is no JSON is
-- refused by it before the key is looked at), and the requests that match no endpoint; the reading
-- of the environment; Uvicorn; logging. The methods of the repository start with a connection and a
-- user: that a read that has to resolve the user first takes a second connection is not modelled.
-- Requests run one after another: two writers inside one handler are not modelled, but the statement
-- that drains a page may see other tables than the one that fetched it.
pub mod Common
pub mod Database
pub mod Encoding
pub mod Models
pub mod Sql
pub mod Repository
pub mod RateLimit
pub mod Security
pub mod Http
pub mod Config
pub mod Api
pub mod Application
pub mod EntryPoint
pub mod Service
