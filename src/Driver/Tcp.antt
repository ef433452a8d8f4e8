-- ===== src/Driver/Tcp.antt =====
-- tcp.c: addresses, and the calls on a connection. What each call of the kernel answers is an
-- argument; `waiting` is a loop that the answers given do not end. Addresses are unsigned numbers, and
-- lengths, which are int and size_t there, are taken to stay below 2 GB.
use sa_wa.Base.{
  ℕ, zero, suc, ◌+◌, ◌*◌, ◌/◌, ◌%◌, ◌^◌, Bool, true, false, not, ◌&&◌, ◌||◌, Option, none, some,
  List, [], ◌∷◌, ◌++◌, ℤ, pos, negsuc, take, drop, length, ◌==◌, if◌then◌else◌,
}
use sa_wa.Bytes.{u32_of_bytes}

-- The loop over the four bytes of an address; the shift comes behind all of them but the last.
unfoldable pub add_bytes : ℕ → List ℕ → ℕ
add_bytes addr [] = addr
add_bytes addr (b ∷ []) = (addr + b) % 2 ^ 32
add_bytes addr (b ∷ c ∷ ip) = add_bytes ((addr + b) * 256 % 2 ^ 32) (c ∷ ip)

unfoldable pub create_address : ℕ → ℕ → ℕ → ℕ → ℕ
unfolding add_bytes
create_address a b c d = add_bytes 0 (a ∷ b ∷ c ∷ d ∷ [])

-- On the numbers that sscanf finds in the text.
unfoldable pub inet_addr : ℕ → ℕ → ℕ → ℕ → ℕ
unfolding u32_of_bytes
inet_addr a b c d = u32_of_bytes (a % 256) (b % 256) (c % 256) (d % 256)

-- On a machine that stores the least significant byte first.
unfoldable pub htonl : ℕ → ℕ
unfolding u32_of_bytes
htonl n = u32_of_bytes (n / 16777216 % 256) (n / 65536 % 256) (n / 256 % 256) (n % 256)

abbrev pub port : ℕ
port = 5000

-- The kernel's error codes, negated: -EAGAIN, -EINPROGRESS and -ERESTARTSYS.
abbrev pub is_eagain : ℤ → Bool
is_eagain (pos n) = false
is_eagain (negsuc n) = n == 10

abbrev pub is_einprogress : ℤ → Bool
is_einprogress (pos n) = false
is_einprogress (negsuc n) = n == 114

abbrev pub is_erestartsys : ℤ → Bool
is_erestartsys (pos n) = false
is_erestartsys (negsuc n) = n == 511

-- On what sock_create and connect return.
unfoldable pub tcp_client_connect : ℤ → ℤ → ℤ
tcp_client_connect (negsuc n) connected = negsuc 0
tcp_client_connect (pos n) (pos zero) = pos 0
tcp_client_connect (pos n) (pos (suc m)) = negsuc 0
tcp_client_connect (pos n) (negsuc m) = if is_einprogress (negsuc m) then pos 0 else negsuc 0

-- A call that returns a number, or one that still goes on.
pub data Call : Type 0 where
  returned : ℤ → Call
  waiting : Call

-- `written ? written : len`
unfoldable pub written_or : ℕ → ℤ → ℤ
written_or zero len = len
written_or (suc n) len = pos (suc n)

-- The loop of tcp_client_send: the bytes that are left, those that are on the wire already, and
-- what kernel_sendmsg returns each time.
unfoldable pub send_loop : Bool → List ℕ → List ℕ → List ℤ → List ℕ × Call
unfolding written_or
send_loop dont_wait left written [] = (written, waiting)
send_loop dont_wait left written (pos zero ∷ answers) =
    (written, returned (written_or (length written) (pos 0)))
send_loop dont_wait left written (pos (suc n) ∷ answers) = elim (length left == suc n) [
  | true ↦ (written ++ left, returned (written_or (length (written ++ left)) (pos (suc n))))
  | false ↦ send_loop dont_wait (drop (suc n) left) (written ++ take (suc n) left) answers
]
send_loop dont_wait left written (negsuc n ∷ answers) =
    elim (is_erestartsys (negsuc n) || (not dont_wait && is_eagain (negsuc n))) [
      | true ↦ send_loop dont_wait left written answers
      | false ↦ (written, returned (written_or (length written) (negsuc n)))
    ]

-- `dont_wait` is MSG_DONTWAIT among the flags.
unfoldable pub tcp_client_send : Bool → List ℕ → List ℤ → List ℕ × Call
unfolding send_loop
tcp_client_send dont_wait buf answers = send_loop dont_wait buf [] answers

-- What kernel_recvmsg returns: the bytes that it delivers, or a negative number.
pub data Recvmsg : Type 0 where
  delivered : List ℕ → Recvmsg
  refused : ℕ → Recvmsg

-- The loop of tcp_client_receive: what ends it, if anything does.
unfoldable pub tcp_client_receive : List Recvmsg → Option Recvmsg
tcp_client_receive [] = none
tcp_client_receive (delivered bytes ∷ answers) = some (delivered bytes)
tcp_client_receive (refused n ∷ answers) =
    elim (is_eagain (negsuc n) || is_erestartsys (negsuc n)) [
      | true ↦ tcp_client_receive answers
      | false ↦ some (refused n)
    ]
