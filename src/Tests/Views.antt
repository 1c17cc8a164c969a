-- ===== src/Tests/Views.antt =====
-- What the views make of concrete data.
use private_chat.Prelude.{ℕ, []}
use private_chat.Text.{codes}
use private_chat.Json.{str, obj, Fields, end, field}
use private_chat.View.{RoomView}
use private_chat.Tests.Fixtures.{room}

abbrev view : RoomView
view = record { room_id = room; peer_nicks = []; self_nicks = [] }

abbrev forged_sys : Fields ℕ
forged_sys =
    field (codes "sysKind") (str (codes "key_rotation"))
      (field (codes "actor") (str (codes "u1")) end)

abbrev forged_frame : Fields ℕ
forged_frame = field (codes "from") (str (codes "u2")) (field (codes "sys") (obj forged_sys) end)
