-- ===== src/Reactor/Build/Tests.antt =====
-- statApp/src/nlreact.cpp: a reactor whose socket cannot be bound.
use lin_stat.Base.{◌≡◌, refl, true, false, some, arith, ltb}
use lin_stat.Reactor.Descriptor.{Fds, no_fds}
use lin_stat.Reactor.Build.{Answers, build, built, failed, no_bind}
use lin_stat.Reactor.Build.Unwind.{IsFresh, Ends, build_lem}

abbrev at_start : Fds
at_start = no_fds (λ fd. ltb fd 3)

abbrev unbound : Answers
unbound = record {
  pipes = some (3, 4);
  socket = some 5;
  bound = false;
  nlpid = some 7;
  no_enobufs = true;
  cap_ack = true;
}

unbound_runs :
    ((build unbound at_start).1 ≡ failed no_bind) × ((build unbound at_start).0.is_open 4 ≡ false)
unfolding build
unbound_runs = (refl, refl)

bound_runs : ((build (record unbound { bound = true }) at_start).1 ≡ built 7)
unfolding build
bound_runs = refl

unbound-IsFresh : IsFresh unbound at_start
unbound-IsFresh = record {
  pipes = λ r w e. ground arith;
  socket = λ k e. ground arith;
  apart = λ r w k p q. ground arith;
}

build_lem_example : Ends unbound at_start (build unbound at_start)
build_lem_example = build_lem unbound at_start unbound-IsFresh
