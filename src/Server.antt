-- ===== src/Server.antt =====
-- src/server.c: the wrappers of the socket calls. What the operating system answers is a parameter,
-- and so is `htons`. Descriptors and return values of the calls are `int`s.
pub mod Sockets
pub mod Interfaces
pub mod Tests
use dns_server.Common.{
  ℕ, ℤ, pos, negsuc, Bool, true, false, not, Bytes, is_negative, uint8, ltb, ◌==◌, if◌then◌else◌,
}

-- A datagram handed to `sendto`.
pub record Packet : Type 0 where
  pub port : ℕ
  pub ip : Bytes
  pub payload : Bytes

-- `send_packet`: 1 if `sendto` returns a negative number.
unfoldable pub send_packet : (Packet → ℤ) → Packet → ℕ
send_packet sendto p = if is_negative (sendto p) then 1 else 0

-- What the system answers to the calls of `setup_server`; `sin_port` is what `getsockname` stores.
pub record SocketCalls : Type 0 where
  pub socket : ℤ
  pub bind : ℕ → ℤ
  pub getsockname : ℤ
  pub sin_port : ℕ

-- How `setup_server` ends: it returns, or the process exits.
pub data SetUp : Type 0 where
  returned : ℤ → SetUp
  exited : ℕ → SetUp

unfoldable pub setup_server : (ℕ → ℕ) → SocketCalls → ℕ → Bool → SetUp
setup_server htons os port_num bind_socket =
    if is_negative os.socket
    then returned (negsuc 0)
    else (if not bind_socket
        then returned os.socket
        else (if is_negative (os.bind (htons port_num))
            then exited 2
            else (if is_negative os.getsockname
                then returned (negsuc 2)
                else (if not (os.sin_port == htons port_num)
                    then returned (negsuc 3)
                    else returned os.socket))))

unfoldable pub is_zero : ℤ → Bool
is_zero (pos n) = n == 0
is_zero (negsuc n) = false

-- `setup_response_thread`, on what `pthread_create` returns.
unfoldable pub setup_response_thread : ℤ → ℕ
setup_response_thread pthread_create = if is_zero pthread_create then 0 else 1

-- `kill_response_thread`, on what `pthread_cancel` returns.
unfoldable pub kill_response_thread : ℤ → ℕ
kill_response_thread pthread_cancel = if is_zero pthread_cancel then 0 else 1

-- `recieve_message`, on what `recvfrom` returns and the buffer as it left it. The result is stored
-- in a uint8_t before it is compared with 0.
unfoldable pub recieve_message : ℤ → Bytes → ℕ × Bytes
recieve_message recvfrom buffer =
    let bytes_recieved = uint8 recvfrom in
    if ltb bytes_recieved 0 then (1, buffer) else (bytes_recieved, buffer)

unfoldable pub is_minus_one : ℤ → Bool
is_minus_one (pos n) = false
is_minus_one (negsuc n) = n == 0

-- `create_tcp_connections`, on what `listen` and `accept` return.
unfoldable pub create_tcp_connections : ℤ → ℤ → ℤ
create_tcp_connections listen accept =
    if not (is_zero listen) then pos 1 else (if is_minus_one accept then pos 2 else accept)

-- `connect_to_tcp`: 1 if `connect` to the address, with the port in network order, fails.
unfoldable pub connect_to_tcp : (ℕ → ℕ) → (Bytes → ℕ → ℤ) → Bytes → ℕ → ℕ
connect_to_tcp htons connect ip port_num =
    if is_negative (connect ip (htons port_num)) then 1 else 0
