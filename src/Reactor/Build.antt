-- ===== src/Reactor/Build.antt =====
-- statApp/src/nlreact.cpp: Reactor::create() with the constructor Reactor::Pvt::Pvt(), whose members
-- notify, wake and nlsock are the FD objects 0, 1 and 2. A constructor that throws destroys them in
-- reverse order.
mod Tests
pub mod Unwind
use lin_stat.Base.{ℕ, ◌≡◌, ◌≢◌, Bool, true, false, Option, none, some, if◌then◌else◌}
use lin_stat.Reactor.State.{Pvt}
use lin_stat.Reactor.Api.{create}
use lin_stat.Reactor.Descriptor.{Fds, default_fd, reset_fd, destroy_fd, opened}

-- What the calls of the system answer: pipe2(), socket(), bind(), getsockname() with the port, and
-- setsockopt() twice.
pub record Answers : Type 0 where
  pub pipes : Option (ℕ × ℕ)
  pub socket : Option ℕ
  pub bound : Bool
  pub nlpid : Option ℕ
  pub no_enobufs : Bool
  pub cap_ack : Bool

pub data Error : Type 0 where
  no_pipe no_socket no_bind no_name no_option : Error

pub data Built : Type 0 where
  built : ℕ → Built
  failed : Error → Built

abbrev pub begun : Fds → Fds
begun s = default_fd 2 (default_fd 1 (default_fd 0 s))

abbrev pub unwound : Error → Fds → Fds × Built
unwound e s = (destroy_fd 0 (destroy_fd 1 (destroy_fd 2 s)), failed e)

-- From the options of the socket on, and from its name on.
abbrev pub set_options : Answers → ℕ → Fds → Fds × Built
set_options a nlpid s =
    if a.no_enobufs
    then if a.cap_ack then (s, built nlpid) else unwound no_option s
    else unwound no_option s

abbrev pub get_name : Answers → Option ℕ → Fds → Fds × Built
get_name a none s = unwound no_name s
get_name a (some nlpid) s = set_options a nlpid s

abbrev pub bind_socket : Answers → Option ℕ → Fds → Fds × Built
bind_socket a none s = unwound no_socket s
bind_socket a (some fd) s = if a.bound then get_name a a.nlpid s else unwound no_bind s

abbrev pub open_socket : Answers → Fds → Fds × Built
open_socket a s = bind_socket a a.socket (reset_fd 2 a.socket (opened a.socket s))

abbrev pub open_pipe : Answers → Option (ℕ × ℕ) → Fds → Fds × Built
open_pipe a none s = unwound no_pipe s
open_pipe a (some (r, w)) s =
    open_socket a (reset_fd 1 (some w) (reset_fd 0 (some r) (opened (some w) (opened (some r) s))))

-- Reactor::Pvt::Pvt()
unfoldable pub build : Answers → Fds → Fds × Built
unfolding default_fd reset_fd destroy_fd
build a s = open_pipe a a.pipes (begun s)

abbrev pub made : ℕ → Fds × Built → Fds × Option Pvt
made hdr_len (s, built nlpid) = (s, some (create hdr_len nlpid))
made hdr_len (s, failed e) = (s, none)

-- Reactor::create()
unfoldable pub create_reactor : ℕ → Answers → Fds → Fds × Option Pvt
unfolding build
create_reactor hdr_len a s = made hdr_len (build a s)
