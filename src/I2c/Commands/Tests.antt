-- ===== src/I2c/Commands/Tests.antt =====
-- A core on a bus with no device, which reads as if no address were acknowledged.
use bpm_gw.Base.{◌≡◌, refl, ap, some, [], ◌++◌, inl, ◌+◌, ◌-◌, arith}
use bpm_gw.Bus.{Bus, ok}
use bpm_gw.I2c.{oc_i2c_scan}
use bpm_gw.I2c.Commands.{Log, after_write, Core, starts, addresses, oc_i2c_scan-starts}

abbrev empty_bus : Bus Log
empty_bus = record { read = λ s r. (0x80, s); write = λ s r v. after_write (r - 0x2000) v s }

empty_bus-Core : Core empty_bus 1 0x2000
empty_bus-Core = record {
  log = λ s. s;
  reads = λ s r. refl;
  writes =
      λ s r v. let back : 0x2000 + r - 0x2000 ≡ r = omega arith in ap (λ o. after_write o v s) back;
  settles = λ s. inl refl;
}

abbrev nothing_yet : Log
nothing_yet = record { issued = []; txr = 0; at_i2c_cr = [] }

oc_i2c_scan-starts_example :
    (s' : Log) × (oc_i2c_scan empty_bus 1 0x2000 nothing_yet ≡ some (ok, s'))
    × (starts (empty_bus-Core.log s').issued
        ≡ starts (empty_bus-Core.log nothing_yet).issued ++ addresses 0 128)
    × ((empty_bus-Core.log s').at_i2c_cr ≡ (empty_bus-Core.log nothing_yet).at_i2c_cr)
oc_i2c_scan-starts_example = oc_i2c_scan-starts empty_bus 1 0x2000 empty_bus-Core nothing_yet
