-- ===== src/Network/Qt.antt =====
-- Qt's sockets and files and the file system, as adapters/qt_network calls them: a record of the
-- calls, which the server takes as a parameter, and a record of what Qt documents of them, which
-- only the theorems take. A call is a pair of functions of the world before it: what it returns, and
-- the world after it.
pub mod Memory
use core_desk.Base.{ℕ, ◌≡◌, ◌≢◌, Bool, true, false, List, [], ◌∷◌, ◌++◌, Option, none, some, length}
use core_desk.Common.{Text}

pub record Qt : Type 1 where
  pub World : Type 0
  -- `QTcpServer`: `listen(address, port)`, `isListening`, `close`, `errorString`, `serverPort`.
  pub listens : World → Text → ℕ → Bool
  pub after_listen : World → Text → ℕ → World
  pub server_error : World → Text
  pub is_listening : World → Bool
  pub after_server_close : World → World
  pub server_port : World → ℕ
  -- `QTcpSocket`, a socket named by a number. `write` returns how many bytes it took, or nothing for
  -- a negative result.
  pub bytes_to_write : World → ℕ → ℕ
  pub is_connected : World → ℕ → Bool
  pub accepted : World → ℕ → Text → Option ℕ
  pub after_write : World → ℕ → Text → World
  -- `disconnectFromHost` and `abort`, and whether `disconnected` is signalled before they return.
  pub disconnects_now : World → ℕ → Bool
  pub after_disconnect : World → ℕ → World
  pub aborts_now : World → ℕ → Bool
  pub after_abort : World → ℕ → World
  -- `std::filesystem`: `is_directory`, `exists`, with its `std::error_code`.
  pub is_directory : World → Text → Bool
  pub exists : World → Text → Bool
  pub exists_error : World → Text → Option Text
  -- `QFile`, named by its path: `open` with `WriteOnly | Truncate`, `write` of all of the bytes,
  -- `flush`, `close`, `errorString`, `rename` and `remove`.
  pub opens : World → Text → Bool
  pub after_open : World → Text → World
  pub writes_all : World → Text → Text → Bool
  pub after_append : World → Text → Text → World
  pub flushes : World → Text → Bool
  pub after_flush : World → Text → World
  pub after_close : World → Text → World
  pub file_error : World → Text → Text
  pub renames : World → Text → Text → Bool
  pub after_rename : World → Text → Text → World
  pub after_remove : World → Text → World
  -- What the client calls besides: `connectToHost`, whether a socket is unconnected, `errorString` of
  -- a socket, `QFileInfo` of a path, a file that is read, and 16 bytes of the random generator.
  pub after_connect : World → ℕ → Text → ℕ → World
  -- The world once a socket has written a number of bytes, which it signals by `bytesWritten`.
  pub after_bytes_written : World → ℕ → ℕ → World
  pub is_unconnected : World → ℕ → Bool
  pub socket_error : World → ℕ → Text
  pub is_file : World → Text → Bool
  pub file_size : World → Text → ℕ
  pub file_name : Text → Text
  pub opens_to_read : World → Text → Bool
  pub after_open_to_read : World → Text → World
  pub at_end : World → Text → Bool
  pub read : World → Text → ℕ → Text
  pub after_read : World → Text → ℕ → World
  pub read_failed : World → Text → Bool
  pub random_bytes : World → List ℕ
  pub after_random : World → World
  -- `QCryptographicHash` with `Sha256`, its result in lower-case hexadecimal.
  pub sha256_hex : Text → Text
  -- What the theorems observe: the bytes of the file at a path, and those written to the file that
  -- was opened last at a path, which may still be in its buffer.
  pub content : World → Text → Option Text
  pub written : World → Text → Text

-- A call leaves every file alone.
abbrev pub KeepsFiles : (qt : Qt) → qt.World → qt.World → Type 0
KeepsFiles qt w w' =
    ((p : Text) → qt.content w' p ≡ qt.content w p)
    × ((p : Text) → qt.written w' p ≡ qt.written w p)

-- A call leaves the files at all other paths alone.
abbrev pub KeepsOthers : (qt : Qt) → Text → qt.World → qt.World → Type 0
KeepsOthers qt path w w' = (p : Text) → p ≢ path → qt.content w' p ≡ qt.content w p

pub record QtLaws (qt : Qt) : Type 0 where
  pub listen-KeepsFiles :
      (w : qt.World) (address : Text) (port : ℕ) → KeepsFiles qt w (qt.after_listen w address port)
  pub server_close-KeepsFiles : (w : qt.World) → KeepsFiles qt w (qt.after_server_close w)
  pub write-KeepsFiles :
      (w : qt.World) (socket : ℕ) (bytes : Text) → KeepsFiles qt w (qt.after_write w socket bytes)
  pub disconnect-KeepsFiles :
      (w : qt.World) (socket : ℕ) → KeepsFiles qt w (qt.after_disconnect w socket)
  pub abort-KeepsFiles : (w : qt.World) (socket : ℕ) → KeepsFiles qt w (qt.after_abort w socket)
  -- A file that is opened with `Truncate` is empty.
  pub open-KeepsOthers : (w : qt.World) (path : Text) → KeepsOthers qt path w (qt.after_open w path)
  pub written-open :
      (w : qt.World) (path : Text)
      → qt.opens w path ≡ true
      → qt.written (qt.after_open w path) path ≡ []
  pub append-KeepsOthers :
      (w : qt.World) (path bytes : Text) → KeepsOthers qt path w (qt.after_append w path bytes)
  pub written-append :
      (w : qt.World) (path bytes : Text)
      → qt.writes_all w path bytes ≡ true
      → qt.written (qt.after_append w path bytes) path ≡ qt.written w path ++ bytes
  -- After a `flush` that returns true the file has what was written to it, and `close` adds nothing.
  pub flush-KeepsOthers :
      (w : qt.World) (path : Text) → KeepsOthers qt path w (qt.after_flush w path)
  pub content-flush :
      (w : qt.World) (path : Text)
      → qt.flushes w path ≡ true
      → qt.content (qt.after_flush w path) path ≡ some (qt.written w path)
  pub content-close :
      (w : qt.World) (path bytes : Text)
      → qt.content (qt.after_flush w path) path ≡ some bytes
      → qt.content (qt.after_close (qt.after_flush w path) path) path ≡ some bytes
  pub close-KeepsOthers :
      (w : qt.World) (path : Text) → KeepsOthers qt path w (qt.after_close w path)
  -- Only `open` and `write` write.
  pub written-flush :
      (w : qt.World) (path p : Text) → qt.written (qt.after_flush w path) p ≡ qt.written w p
  pub written-close :
      (w : qt.World) (path p : Text) → qt.written (qt.after_close w path) p ≡ qt.written w p
  pub written-rename :
      (w : qt.World) (old new p : Text) → qt.written (qt.after_rename w old new) p ≡ qt.written w p
  -- `rename` moves a file to a path where there was none; when it fails it restores both.
  pub content-rename :
      (w : qt.World) (old new : Text)
      → qt.renames w old new ≡ true
      → (qt.content w new ≡ none) × (qt.content (qt.after_rename w old new) new ≡ qt.content w old)
  pub rename_others :
      (w : qt.World) (old new p : Text)
      → p ≢ old
      → p ≢ new
      → qt.content (qt.after_rename w old new) p ≡ qt.content w p
  pub rename_failed :
      (w : qt.World) (old new p : Text)
      → qt.renames w old new ≡ false
      → qt.content (qt.after_rename w old new) p ≡ qt.content w p
  pub remove-KeepsOthers :
      (w : qt.World) (path : Text) → KeepsOthers qt path w (qt.after_remove w path)

-- A call connects no socket.
abbrev pub ConnectsNone : (qt : Qt) → qt.World → qt.World → Type 0
ConnectsNone qt w w' = (k : ℕ) → qt.is_connected w' k ≡ true → qt.is_connected w k ≡ true

-- Neither a call, but `connectToHost`, nor the writing of bytes connects a socket.
pub record SocketLaws (qt : Qt) : Type 0 where
  pub abort-ConnectsNone : (w : qt.World) (k : ℕ) → ConnectsNone qt w (qt.after_abort w k)
  pub disconnect-ConnectsNone : (w : qt.World) (k : ℕ) → ConnectsNone qt w (qt.after_disconnect w k)
  pub close-ConnectsNone : (w : qt.World) (p : Text) → ConnectsNone qt w (qt.after_close w p)
  pub open_to_read-ConnectsNone :
      (w : qt.World) (p : Text) → ConnectsNone qt w (qt.after_open_to_read w p)
  pub read-ConnectsNone :
      (w : qt.World) (p : Text) (n : ℕ) → ConnectsNone qt w (qt.after_read w p n)
  pub bytes_written-ConnectsNone :
      (w : qt.World) (k n : ℕ) → ConnectsNone qt w (qt.after_bytes_written w k n)
  pub random-ConnectsNone : (w : qt.World) → ConnectsNone qt w (qt.after_random w)
