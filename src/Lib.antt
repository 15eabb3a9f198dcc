-- ===== src/Lib.antt =====
-- The web front end of file-indexer: a browser client and the server functions behind it, which pass
-- its requests on to two gRPC services. The development models the program logic of web/src.
--
-- The parts, and how they interact:
-- + Js: what the program uses of JavaScript itself. Texts are lists of code units; `BigInt`,
--   `toString` of a bigint, `Number` of a bigint, `trim`, `join`, `Map` and values of type `unknown`.
-- + Server (web/src/server/impl.ts and web/src/server/files.ts): a server function validates an unknown
--   value and hands the result to a handler. Server.Validate has the validators (`validateIdInput` is
--   `validate_id_input`, and so on), Server.Dto the projections of messages (`toFileDto`),
--   Server.Listing the two listings with their preview URLs (`listFilesImpl`, `listDirectoryImpl`),
--   Server.Calls the handlers that make one call, and Server.Functions the exported functions. The
--   messages of web/src/gen/service/v1 are records in Server.Types and Server.Services.
-- + Upload (web/src/lib/multipartUpload.ts): the browser's resumable upload. Upload.Plan has
--   `planParts`, Upload.Session the sessions in `localStorage`, Upload.Transfer the rest, down from
--   `uploadFileMultipart`. It reaches the server functions through `MultipartUploadDeps`.
-- + Poller (web/src/lib/useFileStatusPoller.ts): one tick of the timer that asks for the states of
--   previews and patches the cached pages of a listing, and in Poller.Polling the hook from its mount to
--   its unmount, as a machine whose requests may be answered late and in any order.
-- + Paths (web/src/lib/uploadPath.ts): the folder part of an upload's key.
-- + Filters (web/src/lib/fileFilters.ts): what the pages read from the parameters of their URLs.
-- + Menus and Table (web/src/components/FileTable.tsx, DeleteFileConfirmation.tsx beside it): which
--   action menu of a table is open, the dialogs of a table with the mutations that they start, and
--   in Table.Clicks the whole table: its rows, and what a click on a part of a row does on its way
--   up to the row.
-- + Folders (web/src/components/Breadcrumbs.tsx, MoveFileDialog.tsx and FolderTree.tsx beside it):
--   the breadcrumbs of a path, the folder and the name of a key, the form for a new folder, the
--   whole move dialog (Folders.Moving), and the two loops that load the subfolders of a folder. The
--   tree's loop has no bound of its own, so it runs on fuel, and as many rounds as the service has
--   pages are enough.
-- + Tree (web/src/components/FolderTree.tsx): which folders of the tree are expanded, their names,
--   and in Tree.Rows the rows on the page, level by level, with the depth as fuel.
-- + Browser (web/src/components/Browser.tsx): Browser.Wiring joins the upload to the server
--   functions and to `fetch` (`multipartDeps`), Browser.Uploads has the upload of several files and
--   the new folder.
-- + FilePage (web/src/routes/file.$id.tsx): the dialogs, calls and navigation of a file's page.
-- + Search (web/src/components/SearchBar.tsx): the search box with its timer, and Routes
--   (web/src/routes): where the header and the filters lead. Searching goes on from the box through
--   the URL to the server.
-- + Lists (web/src/components/FileList.tsx, DirectoryList.tsx and DeleteFolderConfirmation.tsx
--   beside it): what the lists ask the server for, the names of their rows and the deletion of a
--   folder, and in Lists.Paging the loading of further pages when the end of a list comes into
--   sight, for the photo wall too. The rows that a list shows are set against all rows that the
--   server has.
-- + Photos (web/src/components/PhotoWall.tsx): the grouping of photos by day, over any way to write
--   a date.
-- + Format (web/src/lib/formatDate.ts, web/src/lib/fileIcon.ts, and FileMetadataTable.tsx and
--   FileViewer.tsx of web/src/components): how dates, sizes, metadata and previews are shown.
-- + Server.Clients (web/src/server/clients.ts): the two clients that are made when first asked for.
--
-- An asynchronous function is a function from a state to an outcome, a value or a failure, with the
-- state after it; what was done before a throw stays done. The gRPC clients, the dependencies of an
-- upload, `fetch`, the conversion of timestamps to text, the reading and writing of dates, the
-- texts of fractions and upper case, the infinite queries and the router's `stripSearchParams` are
-- parameters, and so is the type of the state behind them, with any behaviour that a theorem relies
-- on as a named record of hypotheses.
--
-- Loops over lists are structural. `planParts` runs on fuel, a round for each byte of the file, which
-- is enough since a part has a byte at least. Printing a number has the number and one more as fuel,
-- since each digit divides it by ten. `Number` of a bigint doubles its unit eleven times at most, which
-- reaches past 2^64, the width of the integers in the messages. Part numbers, sizes and offsets stay
-- below 2^53, where the numbers of JavaScript are exact.
--
-- A component with state is a record, and what it hears of a data type: `handle_box`, `handle_dialog` and
-- the like take the state through one event, and a list of events stands for any order in which clicks,
-- answers and timers come. What a component asks for (calls, keys to invalidate, navigations) is logged
-- in its state.
--
-- Not modelled: rendering and styles; the router, the query library and what its cache does with the
-- keys that are invalidated; a refetch of all pages of a list; a storage that is full, or that
-- another tab changes; enum values of a newer service; the ranges that the encoder of messages checks;
-- generated code other than the messages; the Go services, the protocol definitions and the deployment.
pub mod Prelude
pub mod Js
pub mod Server
pub mod Upload
pub mod Paths
pub mod Filters
pub mod Poller
pub mod Menus
pub mod Folders
pub mod Format
pub mod Photos
pub mod Browser
pub mod Table
pub mod FilePage
pub mod Search
pub mod Tree
pub mod Lists
pub mod Routes
pub mod Tests
