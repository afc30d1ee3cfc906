-- ===== src/Device.antt =====
-- device.hpp and device.cpp: the constructor runs the device until nanomsg ends it.
use nanomsgpp.Prelude.{if◌then◌else◌}
use nanomsgpp.Prelude.Int.{minus_one, eq_ℤ}
use nanomsgpp.Platform.{Platform}
use nanomsgpp.World.{Ref, Cmd, pure, ◌>>=◌, get_socket, device_call}
use nanomsgpp.World.Calls.{call_lib, throw_internal}

unfoldable pub device : {S : Type 0} → Platform S → Ref → Ref → Cmd S (Unit {0})
device nn a b = do
  sa ← get_socket a
  sb ← get_socket b
  result ← call_lib (device_call sa.d_socket sb.d_socket) (nn.nn_device sa.d_socket sb.d_socket)
  if eq_ℤ minus_one result then throw_internal nn else pure tt
