-- ===== src/Nbd/Pipeline/Examples.antt =====
-- Two writes that arrive one after the other and are served the other way round, and a read.
use distributed_nas.Base.{◌≡◌, refl, map, arith, done}
use distributed_nas.Nbd.Image.{Image, image_disk}
use distributed_nas.Nbd.Pipeline.{Pipeline, turns}
use distributed_nas.Nbd.Pipeline.Device.{device_run}
use distributed_nas.Nbd.Pipeline.Simulation.{turn_of, StandsFor, turns-StandsFor}
use distributed_nas.Nbd.Pipeline.Samples.{out_of_order, start, start_device, start-StandsFor, fed}

turns-StandsFor_example :
    (q : Pipeline Image) × (turns (map turn_of out_of_order) start ≡ done q)
    × StandsFor image_disk (device_run out_of_order start_device) q
turns-StandsFor_example =
    turns-StandsFor image_disk out_of_order start_device start
      (
        (refl, omega arith, omega arith, omega arith),
        (
          (refl, omega arith, omega arith, omega arith),
          (tt, ((refl, omega arith, omega arith, omega arith), (tt, (tt, tt)))),
        ),
      )
      tt start-StandsFor fed
