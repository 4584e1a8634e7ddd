-- ===== src/Thread.antt =====
-- std::jthread, as the threads of GioNet/inc/Server.h and GioNet/inc/Client.h: whether it was
-- started and whether it was asked to stop. What it runs is modelled where it is written.
use gio_net.Base.{Bool, true, false}

-- Not started, running, or asked to stop.
pub data Thread : Type 0 where
  idle running stopping : Thread

-- A thread that was not started has nothing to stop.
abbrev pub request_stop : Thread → Thread
request_stop idle = idle
request_stop running = stopping
request_stop stopping = stopping

abbrev pub stop_requested : Thread → Bool
stop_requested idle = false
stop_requested running = false
stop_requested stopping = true
