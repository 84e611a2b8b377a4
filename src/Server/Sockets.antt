-- ===== src/Server/Sockets.antt =====
-- What the return values of src/server.c tell their callers.
use dns_server.Common.{
  ℕ, ◌<◌, ◌≡◌, ℤ, pos, negsuc, Bool, false, Bytes, is_negative, uint8, refl, ◌↔◌, ◌⊎◌, arith,
}
use dns_server.Server.{
  SocketCalls, returned, setup_server, recieve_message, create_tcp_connections, is_zero,
  is_minus_one,
}

-- The socket is bound: both calls succeed, and the port is the one asked for.
abbrev pub IsBound : (ℕ → ℕ) → SocketCalls → ℕ → Type 0
IsBound htons os port_num =
    (is_negative (os.bind (htons port_num)) ≡ false)
    × (is_negative os.getsockname ≡ false)
    × (os.sin_port ≡ htons port_num)

-- `setup_server` returns a descriptor, a number that is not negative, exactly if `socket` gave that
-- descriptor and, where binding was asked for, the socket is bound to the port.
pub setup_server_lem :
    (htons : ℕ → ℕ) (os : SocketCalls) (port_num : ℕ) (bind_socket : Bool) (n : ℕ)
    → (setup_server htons os port_num bind_socket ≡ returned (pos n))
      ↔ ((os.socket ≡ pos n) × ((bind_socket ≡ false) ⊎ IsBound htons os port_num))
unfolding setup_server
setup_server_lem htons os port_num bind_socket n = ground arith

-- `recieve_message` reports no failure: whatever `recvfrom` returns is the length modulo 256, so the
-- failure -1 is taken for a message of 255 bytes, and a length below 256 is returned as it is.
pub recieve_message-no_error :
    (buffer : Bytes)
    → (recieve_message (negsuc 0) buffer ≡ (255, buffer))
      × ((n : ℕ) → n < 256 → recieve_message (pos n) buffer ≡ (n, buffer))
      × ((r : ℤ) → recieve_message r buffer ≡ (uint8 r, buffer))
unfolding recieve_message uint8
recieve_message-no_error buffer = (refl, λ n h. ground arith, λ r. ground arith)

-- A result of `create_tcp_connections` above 2 is the socket that `accept` returned, after a
-- successful `listen`; 1 and 2 may be an error or a socket.
pub create_tcp_connections_lem :
    (listen accept : ℤ) (n : ℕ)
    → 2 < n
    → create_tcp_connections listen accept ≡ pos n
    → (listen ≡ pos 0) × (accept ≡ pos n)
unfolding create_tcp_connections is_zero is_minus_one
create_tcp_connections_lem listen accept n h e = ground arith
