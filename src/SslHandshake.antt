-- ===== src/SslHandshake.antt =====
-- src/net/SSLHandshake.h and src/net/SSLHandshake.cpp: a handshake on a descriptor of the poller.
-- What getsockopt and OpenSSL answer is an argument.
pub mod Outcomes
mod Examples
use hwnet.Prelude.{ℕ, ◌+◌, ◌-◌, Bool, true, false, not, ◌||◌, List, [], ◌∷◌, ◌==◌, if◌then◌else◌}

-- `bad_function_call` is the exception of a call of an empty std::function.
pub data Effect : Type 0 where
  set_no_block poller_add poller_remove close_fd ssl_free bad_function_call : Effect
  on_ok on_error : ℕ → Effect

-- `ssl` says whether the object still holds its SSL, `handler` whether onError_ is set; `tasks`
-- counts the calls of Do that were posted and have not returned; `trace` holds the effects, the
-- newest first.
pub record Handshake : Type 0 where
  pub fd : ℕ
  pub ssl : Bool
  pub handler : Bool
  pub ver : ℕ
  pub doing : Bool
  pub socket_error : Bool
  pub err : ℕ
  pub tasks : ℕ
  pub trace : List Effect

abbrev emit : Effect → Handshake → Handshake
emit e h = record h { trace = e ∷ h.trace }

-- What New returns: false with the effects until then, or true.
pub data Made : Type 0 where
  refused : List Effect → Made
  made : Handshake → Made

-- New, with the constructor, given whether poller_ and ssl_ctx are not null, whether the two
-- callbacks are set, and whether SSL_new and SSL_set_fd go well. The result of Add is not used.
unfoldable pub new : Bool → Bool → Bool → Bool → Bool → Bool → ℕ → Made
new poller ssl_ctx ok_callback handler has_ssl set_fd fd =
    let h : Handshake = record {
      fd = fd;
      ssl = true;
      handler = handler;
      ver = 0;
      doing = false;
      socket_error = false;
      err = 0;
      tasks = 0;
      trace = poller_add ∷ set_no_block ∷ [];
    } in
    if not poller || (not ssl_ctx || not ok_callback)
    then refused []
    else if not has_ssl
    then refused (set_no_block ∷ [])
    else if not set_fd
    then refused (ssl_free ∷ set_no_block ∷ [])
    else made h

-- What getsockopt says of SO_ERROR: the value, or its own errno.
pub data SockOpt : Type 0 where
  optval errno : ℕ → SockOpt

unfoldable pub error_of : SockOpt → ℕ
error_of (optval n) = n
error_of (errno n) = n

-- An event, and for one with the error flag what getsockopt says.
pub data Event : Type 0 where
  ready : Event
  broken : SockOpt → Event

note_event : Event → Handshake → Handshake
unfolding error_of
note_event ready h = record h { ver = h.ver + 1 }
note_event (broken o) h = record h { err = error_of o; socket_error = true }

-- OnActive
unfoldable pub on_active : Event → Handshake → Handshake
unfolding note_event
on_active e h =
    let noted = note_event e h in
    if h.doing then noted else record noted { doing = true; tasks = h.tasks + 1 }

-- onError_
report : ℕ → Handshake → Handshake
report e h = if h.handler then emit (on_error e) h else emit bad_function_call h

-- close, Remove and onError_, after which Do returns.
unfoldable pub fail : ℕ → Handshake → Handshake
unfolding report
fail e h = report e (emit poller_remove (emit close_fd (record h { tasks = h.tasks - 1 })))

-- How a part of Do ends: the loop goes on, or the task is left.
pub data Outcome : Type 0 where
  goes_on leaves : Outcome

-- The head of the loop of Do.
unfoldable pub check_error : Handshake → Outcome × Handshake
unfolding fail
check_error h = if h.socket_error then (leaves, fail h.err h) else (goes_on, h)

-- What SSL_get_error says of a handshake that is not done.
pub data SslError : Type 0 where
  want_write want_read : SslError
  other : ℕ → SslError

-- What SSL_accept or SSL_connect answers. If it is not done, the number is what SSL_get_error says
-- when Do asks it again for onError_, after ERR_print_errors_fp.
pub data Answer : Type 0 where
  done : Answer
  undone : SslError → ℕ → Answer

unfoldable pub ssl_again : SslError → Bool
ssl_again want_write = true
ssl_again want_read = true
ssl_again (other n) = false

-- The loop of Do after the call of `handshake`, with the version that was read before it.
unfoldable pub check_answer : ℕ → Answer → Handshake → Outcome × Handshake
unfolding fail ssl_again
check_answer local_ver done h =
    (leaves, emit (on_ok h.fd) (emit poller_remove (record h { ssl = false; tasks = h.tasks - 1 })))
check_answer local_ver (undone e code) h =
    if ssl_again e
    then (if local_ver == h.ver
        then (leaves, record h { doing = false; tasks = h.tasks - 1 })
        else (goes_on, h))
    else (leaves, fail code h)

-- ~SSLHandshake
unfoldable pub destroy : Handshake → List Effect
destroy h = if h.ssl then ssl_free ∷ h.trace else h.trace
