-- ===== src/Thread.antt =====
-- `ConnectionThread` of server/thread_pool.h: what the pool, the two servers and the screen share
-- about one thread. A pointer is a number, 0 for null. The counters do not wrap.
use sa_wa.Base.{ℕ, ◌+◌, List, [], ◌∷◌, ℤ, get_or, set}

abbrev pub Ptr : Type 0
Ptr = ℕ

abbrev pub null : Ptr
null = 0

pub record ConnectionThread : Type 0 where
  pub nb : ℕ
  pub client_sock : ℤ
  pub nb_connections : ℕ
  pub info : List ℕ
  pub next : Ptr
  pub next_all : Ptr

-- The constructor; `nb` and `next_all` are set by the caller.
unfoldable pub connection_thread : ℤ → ℕ → Ptr → ConnectionThread
connection_thread sock nb next_all = record {
  nb = nb;
  client_sock = sock;
  nb_connections = 1;
  info = 0 ∷ 0 ∷ 0 ∷ [];
  next = null;
  next_all = next_all;
}

-- `Server::updateScreen` counts the request in a column; the screen is module Display's.
unfoldable pub update_screen : ConnectionThread → ℕ → ConnectionThread
update_screen t idx = record t { info = set t.info idx (get_or t.info idx 0 + 1) }
