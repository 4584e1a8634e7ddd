-- ===== src/Message.antt =====
-- GioNet/inc/Message.h and GioNet/src/Message.cpp.
use gio_net.Base.{Bool, true}
use gio_net.Buffer.{Buffer, empty}

pub record Message : Type 0 where
  pub reliable : Bool
  pub «data» : Buffer

-- `Message()`
abbrev pub default_message : Message
default_message = record { reliable = true; «data» = empty }

-- `Message(Buffer&&)`
abbrev pub make_message : Buffer → Message
make_message bytes = record default_message { «data» = bytes }
