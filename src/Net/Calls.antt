-- ===== src/Net/Calls.antt =====
-- What the calls of the system do, as far as the start of both programs relies on it, and what
-- holds behind a stretch of code that makes them.
use wind_cloud_v.Base.{
  ◌==◌, if◌then◌else◌, ℕ, zero, suc, ◌≡◌, ◌≢◌, refl, false, Option, none, some, List, [], ◌∷◌,
  Bytes, arith, codes,
}
use wind_cloud_v.Net.{
  Outcome, went, exits, undefined, ◌>>=◌, error_check, thread_error_check, Sockaddr, Kernel,
}

-- What can be seen of the process: the addresses that its sockets are bound and connected to, the
-- sockets that listen, which descriptors each epoll instance watches, how many threads were made, and
-- the descriptors that are open.
pub record Seen : Type 0 where
  pub bound : List (ℕ × Sockaddr)
  pub connected : List (ℕ × Sockaddr)
  pub listening : List ℕ
  pub watched : List (ℕ × ℕ)
  pub threads : ℕ
  pub fds : List ℕ

-- A new descriptor.
abbrev pub with_fd : ℕ → Seen → Seen
with_fd fd seen = record seen { fds = fd ∷ seen.fds }

unfoldable pub without : ℕ → List ℕ → List ℕ
without fd [] = []
without fd (x ∷ xs) = let rest = without fd xs in if x == fd then xs else x ∷ rest

-- What the manual says of the calls that succeed.
pub record Manual (k : Kernel) : Type 0 where
  pub see : k.State → Seen
  pub socket-see :
      (s s' : k.State) (fd : ℕ) → k.socket s ≡ some (fd, s') → see s' ≡ with_fd fd (see s)
  pub setsockopt-see : (s : k.State) (fd : ℕ) → see (k.setsockopt s fd) ≡ see s
  pub bind-see :
      (s s' : k.State) (fd : ℕ) (addr : Sockaddr)
      → k.bind s fd addr ≡ some s'
      → see s' ≡ record (see s) { bound = (fd, addr) ∷ (see s).bound }
  pub listen-see :
      (s s' : k.State) (fd backlog : ℕ)
      → k.listen s fd backlog ≡ some s'
      → see s' ≡ record (see s) { listening = fd ∷ (see s).listening }
  pub connect-see :
      (s s' : k.State) (fd : ℕ) (addr : Sockaddr)
      → k.connect s fd addr ≡ some s'
      → see s' ≡ record (see s) { connected = (fd, addr) ∷ (see s).connected }
  pub pipe-see :
      (s s' : k.State) (rd wr : ℕ)
      → k.pipe s ≡ some (rd, wr, s')
      → see s' ≡ with_fd rd (with_fd wr (see s))
  pub signal-see : (s : k.State) → see (k.signal s) ≡ see s
  pub sigaction-see : (s s' : k.State) → k.sigaction s ≡ some s' → see s' ≡ see s
  pub epoll_create1-see :
      (s s' : k.State) (fd : ℕ) → k.epoll_create1 s ≡ some (fd, s') → see s' ≡ with_fd fd (see s)
  pub epoll_ctl_add-see :
      (s s' : k.State) (epfd fd : ℕ)
      → k.epoll_ctl_add s epfd fd ≡ some s'
      → see s' ≡ record (see s) { watched = (epfd, fd) ∷ (see s).watched }
  pub pthread_create-see :
      (s : k.State)
      → (k.pthread_create s).0 ≡ 0
      → see (k.pthread_create s).1 ≡ record (see s) { threads = suc (see s).threads }
  pub close-see :
      (s : k.State) (fd : ℕ) → see (k.close s fd) ≡ record (see s) { fds = without fd (see s).fds }

-- The call that a message names has failed.
pub data Failed (k : Kernel) : Bytes → Type 0 where
  socket : (s : k.State) → k.socket s ≡ none → Failed k (codes "socket")
  bind :
      (s : k.State) (fd : ℕ) (addr : Sockaddr) → k.bind s fd addr ≡ none → Failed k (codes "bind")
  listen : (s : k.State) (fd n : ℕ) → k.listen s fd n ≡ none → Failed k (codes "listen")
  connect :
      (s : k.State) (fd : ℕ) (addr : Sockaddr)
      → k.connect s fd addr ≡ none
      → Failed k (codes "connect")
  pipe : (s : k.State) → k.pipe s ≡ none → Failed k (codes "pipe")
  sigaction : (s : k.State) → k.sigaction s ≡ none → Failed k (codes "sigaction")
  epoll_create1 : (s : k.State) → k.epoll_create1 s ≡ none → Failed k (codes "epoll_create1")
  epoll_ctl_add :
      (s : k.State) (epfd fd : ℕ)
      → k.epoll_ctl_add s epfd fd ≡ none
      → Failed k (codes "epoll_ctl add")
  pthread_create : (s : k.State) → (k.pthread_create s).0 ≢ 0 → Failed k (codes "pthread_create")
  thread_ids :
      (s : k.State) (n : ℕ) → k.calloc s n ≡ false → Failed k (codes "calloc thread_id_arr failed")
  active_fds :
      (s : k.State) (n : ℕ) → k.calloc s n ≡ false → Failed k (codes "malloc active_fds failed")

-- The code went on, to values with a property, or the process left and named a call that failed.
abbrev pub After {ℓ} : {A : Type ℓ} → (k : Kernel) → (A → Type 0) → Outcome A → Type 0
After k P (went a) = P a
After k P (exits msg) = Failed k msg
After k P undefined = ⊥

pub >>=-After {ℓ κ} :
    {A : Type ℓ} {B : Type κ} (k : Kernel) (P : A → Type 0) (Q : B → Type 0) (m : Outcome A)
    (f : A → Outcome B)
    → After k P m
    → ((a : A) → P a → After k Q (f a))
    → After k Q (m >>= f)
>>=-After k P Q (went a) f h next = next a h
>>=-After k P Q (exits msg) f h next = h
>>=-After k P Q undefined f h next = h

pub error_check-After {ℓ} :
    {A : Type ℓ} (k : Kernel) (P : A → Type 0) (msg : Bytes) (r : Option A)
    → (r ≡ none → Failed k msg)
    → ((a : A) → r ≡ some a → P a)
    → After k P (error_check msg r)
unfolding error_check
error_check-After k P msg none bad good = bad refl
error_check-After k P msg (some a) bad good = good a refl

pub thread_error_check-After {ℓ} :
    {A : Type ℓ} (k : Kernel) (P : A → Type 0) (msg : Bytes) (ret : ℕ) (a : A)
    → (ret ≢ 0 → Failed k msg)
    → (ret ≡ 0 → P a)
    → After k P (thread_error_check msg ret a)
unfolding thread_error_check
thread_error_check-After k P msg zero a bad good = good refl
thread_error_check-After k P msg (suc ret) a bad good = bad (λ e. omega arith)

-- Where no call fails, the code goes on.
pub After-went {ℓ} :
    {A : Type ℓ} (k : Kernel) (P : A → Type 0) (m : Outcome A)
    → After k P m
    → ((msg : Bytes) → ¬ Failed k msg)
    → (a : A) × (m ≡ went a) × P a
After-went k P (went a) h ok = (a, refl, h)
After-went k P (exits msg) h ok = absurd (ok msg h)
After-went k P undefined h ok = absurd h
