-- ===== src/Server/Requests.antt =====
-- server_handle_connection of src/server.c: which requests of a connection change files.
use mini_sync.Common.{
  ℕ, zero, suc, ◌≡◌, refl, ◌∙◌, ◌⊎◌, inl, inr, Bool, true, false, List, [], arith, Text, codes,
  Bool-cases, Option-cases, ◌==◌, if◌then◌else◌,
}
use mini_sync.Input.{Input}
use mini_sync.Output.{Output}
use mini_sync.Net.{Io, done, broken, out_of_fuel, and_then}
use mini_sync.Protocol.{SyncHeader, recv_header, send_ack, send_error}
use mini_sync.Protocol.Msg
use mini_sync.FileSystem.{FileSystem}
use mini_sync.Server.{Session, after_reply, on_output, refuse, target_paths}
use mini_sync.Server.Handlers.{server_handle_query_offset}
use mini_sync.Server.Connection.{
  c_string, names_file, keeps_open, handle_request, path_read, request_read, serve,
  server_handle_connection,
}

module _ (F : FileSystem) (malloc : ℕ → Bool) (I : Input) (O : Output) where
  -- Whatever is returned, the files are as they were.
  abbrev pub SameFiles : Session F I O → Io (Unit {0}) (Session F I O) → Type 0
  SameFiles c (done _ d) = d.files ≡ c.files
  SameFiles c (broken d) = d.files ≡ c.files
  SameFiles c out_of_fuel = Unit

  after_error-SameFiles :
      (c : Session F I O) (r : Io (Unit {0}) O.State) → SameFiles c (after_reply F I O false c r)
  after_error-SameFiles c (done _ o) = refl
  after_error-SameFiles c (broken o) = refl
  after_error-SameFiles c out_of_fuel = tt

  refuse-SameFiles :
      (fuel : ℕ) (message : Text) (c : Session F I O) → SameFiles c (refuse F I O fuel message c)
  unfolding refuse
  refuse-SameFiles fuel message c = after_error-SameFiles c (send_error O fuel c.output message)

  on_output-SameFiles :
      (c : Session F I O) (r : Io (Unit {0}) O.State) → SameFiles c (on_output F I O c r)
  on_output-SameFiles c (done _ o) = refl
  on_output-SameFiles c (broken o) = refl
  on_output-SameFiles c out_of_fuel = tt

  query-SameFiles :
      (fuel : ℕ) (root rel : Text) (c : Session F I O)
      → SameFiles c (server_handle_query_offset F malloc I O fuel root rel c)
  unfolding server_handle_query_offset
  query-SameFiles fuel root rel c = elim (Option-cases (target_paths root rel)) [
    | inl unsafe ↦
        rw (unsafe, server_handle_query_offset)
          (refuse-SameFiles fuel (codes "invalid query path") c)
    | inr ((dst, tmp), at) ↦ rw (at, server_handle_query_offset) (on_output-SameFiles c _)
  ]

  -- A request that keeps the connection open changes no file.
  pub handle_request-SameFiles :
      (fuel : ℕ) (root : Text) (header : SyncHeader) (rel_path : List ℕ) (last : Text)
      (c : Session F I O)
      → keeps_open header.msg_type ≡ true
      → SameFiles c (handle_request F malloc I O fuel root header rel_path last c)
  unfolding handle_request
  handle_request-SameFiles fuel root header rel_path last c keeps =
      elim (Bool-cases (header.msg_type == Msg.hello)) [
        | inl hello ↦
            rw (hello, handle_request) (on_output-SameFiles c (send_ack O fuel c.output 0))
        | inr other ↦
            let begins : (header.msg_type == Msg.file_begin) ≡ false =
              ground (arith, keeps, other) in
            let asks : (header.msg_type == Msg.query_offset) ≡ true =
              ground (arith, keeps, other) in
            rw (other, begins, asks, handle_request)
              (query-SameFiles fuel root (c_string rel_path) c)
      ]

  -- The files are as they were, or the result is that of one request that began with these files.
  abbrev pub AtMostOne : ℕ → (root : Text) → Session F I O → Io (Unit {0}) (Session F I O) → Type 0
  AtMostOne fuel root c r =
      SameFiles c r
      ⊎ ((header : SyncHeader) × (rel_path : List ℕ) × (last : Text) × (d : Session F I O)
          × (d.files ≡ c.files)
          × (keeps_open header.msg_type ≡ false)
          × (handle_request F malloc I O fuel root header rel_path last d ≡ r))

  abbrev Next : Type 0
  Next = Session F I O → Text → Io (Unit {0}) (Session F I O)

  AtMostOne-from :
      (fuel : ℕ) (root : Text) (c d : Session F I O) (r : Io (Unit {0}) (Session F I O))
      → d.files ≡ c.files
      → AtMostOne fuel root d r
      → AtMostOne fuel root c r
  AtMostOne-from fuel root c d (done _ x) same (inl h) = inl (h ∙ same)
  AtMostOne-from fuel root c d (broken x) same (inl h) = inl (h ∙ same)
  AtMostOne-from fuel root c d out_of_fuel same (inl h) = inl tt
  AtMostOne-from fuel root c d r same (inr (header, rel_path, last, e, h, closes, at)) =
      inr (header, rel_path, last, e, h ∙ same, closes, at)

  goes_on :
      (next : Next) (fuel : ℕ) (root : Text) (last : Text) (c : Session F I O)
      (r : Io (Unit {0}) (Session F I O))
      → ((d : Session F I O) → AtMostOne fuel root d (next d last))
      → SameFiles c r
      → AtMostOne fuel root c (and_then r (λ _ d. next d last))
  goes_on next fuel root last c (done _ d) one h =
      AtMostOne-from fuel root c d (next d last) h (one d)
  goes_on next fuel root last c (broken d) one h = inl h
  goes_on next fuel root last c out_of_fuel one h = inl tt

  result : (r : Io (Unit {0}) (Session F I O)) → r ≡ and_then r (λ _ d. done tt d)
  result (done _ d) = refl
  result (broken d) = refl
  result out_of_fuel = refl

  path_read-AtMostOne :
      (next : Next) (fuel : ℕ) (root : Text) (header : SyncHeader) (last : Text) (c : Session F I O)
      (r : Io Text I.State)
      → ((d : Session F I O) (l : Text) → AtMostOne fuel root d (next d l))
      → AtMostOne fuel root c (path_read F malloc I O next fuel root header last c r)
  path_read-AtMostOne next fuel root header last c out_of_fuel one = inl tt
  path_read-AtMostOne next fuel root header last c (broken i) one =
      inl (refuse-SameFiles fuel (codes "read path failed") (record c { input = i }))
  path_read-AtMostOne next fuel root header last c (done rel_path i) one =
      let last' = if names_file header.msg_type then c_string rel_path else last in
      let d : Session F I O = record c { input = i } in
      elim (Bool-cases (keeps_open header.msg_type)) [
        | inl keeps ↦ rw keeps (
            goes_on next fuel root last' c
              (handle_request F malloc I O fuel root header rel_path last' d) (λ e. one e last')
              (handle_request-SameFiles fuel root header rel_path last' d keeps))
        | inr closes ↦ rw closes (
            inr (
              header,
              rel_path,
              last',
              d,
              refl,
              closes,
              result (handle_request F malloc I O fuel root header rel_path last' d),
            ))
      ]

  request_read-AtMostOne :
      (next : Next) (fuel : ℕ) (root : Text) (last : Text) (c : Session F I O)
      (r : Io SyncHeader I.State)
      → ((d : Session F I O) (l : Text) → AtMostOne fuel root d (next d l))
      → AtMostOne fuel root c (request_read F malloc I O next fuel root last c r)
  request_read-AtMostOne next fuel root last c out_of_fuel one = inl tt
  request_read-AtMostOne next fuel root last c (broken i) one = inl refl
  request_read-AtMostOne next fuel root last c (done header i) one =
      elim (Bool-cases (header.msg_type == Msg.exit)) [
        | inl over ↦ rw over (inl refl)
        | inr more ↦
            rw more (path_read-AtMostOne next fuel root header last (record c { input = i }) _ one)
      ]

  serve-AtMostOne :
      (fuel rounds : ℕ) (root : Text) (c : Session F I O) (last : Text)
      → AtMostOne fuel root c (serve F malloc I O fuel rounds root c last)
  unfolding serve
  serve-AtMostOne fuel zero root c last = inl tt
  serve-AtMostOne fuel (suc rounds) root c last =
      request_read-AtMostOne (serve F malloc I O fuel rounds root) fuel root last c
        (recv_header I fuel c.input) (λ d l. serve-AtMostOne fuel rounds root d l)

  -- A connection leaves the files as they were, or as one request leaves them that began with the same files: HELLO
  -- and QUERY_OFFSET change none, and no request follows one that may.
  pub server_handle_connection-AtMostOne :
      (fuel rounds : ℕ) (root : Text) (c : Session F I O)
      → AtMostOne fuel root c (server_handle_connection F malloc I O fuel rounds root c)
  unfolding server_handle_connection
  server_handle_connection-AtMostOne fuel rounds root c = serve-AtMostOne fuel rounds root c []
