-- ===== src/Sockets/Descriptors.antt =====
-- The sockets that a process holds open, as a list of descriptors, and what the system calls do to it.
use cpp_interface.Prelude.{
  ℕ, ◌≡◌, refl, Bool, true, false, ◌||◌, List, [], ◌∷◌, ◌==◌, if◌then◌else◌, ℤ, pos, negsuc, eq→==,
  Bool-cases, inl, inr, arith,
}
use cpp_interface.SockAddr.{SockAddr}
use cpp_interface.Sockets.{
  Kernel, Setting, sys_socket, sys_accept, sys_close, sys_setsockopt, sys_connect, sys_bind,
  sys_listen, is_invalid,
}

abbrev pub same_fd : ℤ → ℤ → Bool
same_fd (pos m) (pos n) = m == n
same_fd (pos m) (negsuc n) = false
same_fd (negsuc m) (pos n) = false
same_fd (negsuc m) (negsuc n) = m == n

same_fd_refl : (fd : ℤ) → same_fd fd fd ≡ true
same_fd_refl (pos n) = eq→== n n refl
same_fd_refl (negsuc n) = eq→== n n refl

abbrev pub is_open : ℤ → List ℤ → Bool
is_open fd [] = false
is_open fd (x ∷ xs) = same_fd fd x || is_open fd xs

-- A descriptor is closed; one that is not open stays so.
abbrev pub without : ℤ → List ℤ → List ℤ
without fd [] = []
without fd (x ∷ xs) = let rest = without fd xs in if same_fd fd x then xs else x ∷ rest

pub without-own : (fd : ℤ) (xs : List ℤ) → without fd (fd ∷ xs) ≡ xs
without-own fd xs = rw (same_fd_refl fd) refl

same_fd_sym : (a b : ℤ) → same_fd a b ≡ same_fd b a
same_fd_sym (pos m) (pos n) = ground arith
same_fd_sym (pos m) (negsuc n) = refl
same_fd_sym (negsuc m) (pos n) = refl
same_fd_sym (negsuc m) (negsuc n) = ground arith

-- The second descriptor is closed, if the first is another one.
pub without-second :
    (new fd : ℤ) (xs : List ℤ)
    → is_open new (fd ∷ xs) ≡ false
    → without fd (new ∷ fd ∷ xs) ≡ new ∷ xs
without-second new fd xs fresh = elim (Bool-cases (same_fd new fd)) [
  | inl e ↦ absurd (ground (arith, e, fresh))
  | inr e ↦ rw (same_fd_sym fd new, e, same_fd_refl fd) refl
]

-- The descriptors after a call that opens one if it succeeds.
abbrev pub opened : ℤ → List ℤ → List ℤ
opened rc xs = if is_invalid rc then xs else rc ∷ xs

module _ {K : Type 0} (kernel : Kernel K) where
  -- A kernel that holds the open sockets of the process in `open_sockets`, as the manual has it:
  -- `socket` and `accept` open one if they succeed, which for `accept` was not open before, `close`
  -- closes the one that it is given, and the other calls open and close none.
  pub record TracksSockets (open_sockets : K → List ℤ) : Type 0 where
    pub by_socket :
        (d t : ℕ) (k : K)
        → open_sockets (kernel k (sys_socket d t)).1
          ≡ opened (kernel k (sys_socket d t)).0.rc (open_sockets k)
    pub by_accept :
        (fd : ℤ) (k : K)
        → open_sockets (kernel k (sys_accept fd)).1
          ≡ opened (kernel k (sys_accept fd)).0.rc (open_sockets k)
    pub fresh :
        (fd : ℤ) (k : K)
        → is_invalid (kernel k (sys_accept fd)).0.rc ≡ false
        → is_open (kernel k (sys_accept fd)).0.rc (open_sockets k) ≡ false
    pub by_close :
        (fd : ℤ) (k : K) → open_sockets (kernel k (sys_close fd)).1 ≡ without fd (open_sockets k)
    pub by_setsockopt :
        (fd : ℤ) (o : Setting) (k : K)
        → open_sockets (kernel k (sys_setsockopt fd o)).1 ≡ open_sockets k
    pub by_connect :
        (fd : ℤ) (a : SockAddr) (n : ℕ) (k : K)
        → open_sockets (kernel k (sys_connect fd a n)).1 ≡ open_sockets k
    pub by_bind :
        (fd : ℤ) (a : SockAddr) (n : ℕ) (k : K)
        → open_sockets (kernel k (sys_bind fd a n)).1 ≡ open_sockets k
    pub by_listen :
        (fd n : ℤ) (k : K) → open_sockets (kernel k (sys_listen fd n)).1 ≡ open_sockets k
