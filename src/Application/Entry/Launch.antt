-- ===== src/Application/Entry/Launch.antt =====
-- src/apps/pulseport-service/main.cpp: what `main` runs.
use pulseport.Service.{Dispatcher}
use pulseport.Config.{Config}
use pulseport.Application.Entry.{Ended}
use pulseport.Prelude.{Bool, Option, none, some, true}
use pulseport.Prelude.Double.{Double}
use pulseport.Prelude.Dict.{Dict}

-- The dispatcher runs the program, or leaves it to the console.
abbrev pub lets_run : Dispatcher → Bool
lets_run (Dispatcher.dispatched registered controls) = registered
lets_run _ = true

-- What the process worked on, if it ran.
abbrev pub world_of {ℓ} : {W : Type ℓ} → Ended W → Option W
world_of (Ended.ran logger mode p) = some p.world
world_of _ = none
