-- ===== src/Hooks.antt =====
-- statApp/src/iochooks.cpp: the global reactor, from the registrar to the exit of the IOC. Messages
-- of exceptions are left out.
use lin_stat.Base.{Bool, Option, none, some, if◌then◌else◌}
use lin_stat.Reactor.State.{Pvt}
use lin_stat.Reactor.Api.{Result, ok, err, start, stop, via}

abbrev kept : Option Pvt → Result Pvt → Option Pvt
kept reactor (ok s) = some s
kept reactor (err e) = reactor

-- linStatStart(), with "the state is initHookAfterIocRunning".
unfoldable pub ioc_start : Bool → Option Pvt → Option Pvt
unfolding start via
ioc_start running reactor =
    if running then kept reactor (via reactor (λ s. ok (start s))) else reactor

-- linStatStop(), up to the join.
unfoldable pub ioc_stop : Option Pvt → Option Pvt
unfolding stop via
ioc_stop reactor = kept reactor (via reactor (λ s. ok (stop s)))

-- linStatRegistrar(); `created` is what Reactor::create() gave, none an exception.
unfoldable pub registrar : Option Pvt → Option Pvt → Option Pvt
registrar none reactor = reactor
registrar (some s) reactor = some s
