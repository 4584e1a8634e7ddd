-- ===== src/Address/Examples.antt =====
-- Addresses: tests, and the theorem on keys at two ways to name this machine.
use gio_net.Base.{◌≡◌, refl, true, false, [], bytes_of}
use gio_net.Address.{NetAddress, is_server, is_loopback, address_equal, starts_with, text_equal}

abbrev local_name : NetAddress
local_name = record { ip = bytes_of "localhost"; port = 80 }

abbrev local_number : NetAddress
local_number = record { ip = bytes_of "127.0.0.1"; port = 80 }

same_machine : address_equal local_name local_number ≡ true
unfolding address_equal is_loopback starts_with text_equal
same_machine = refl

other_port : address_equal local_name (record local_number { port = 81 }) ≡ false
unfolding address_equal
other_port = refl

-- `NetAddress{"", port}` is the address a server is made for; port 0 is not.
server_addresses : is_server (record { ip = []; port = 26000 }) ≡ true
unfolding is_server text_equal
server_addresses = refl

no_port : is_server (record { ip = []; port = 0 }) ≡ false
unfolding is_server text_equal
no_port = refl
