-- ===== src/Core/UniqueFd.antt =====
-- include/simplenet/core/unique_fd.hpp and src/core/unique_fd.cpp: the owner of one descriptor.
-- Every operation returns the descriptors that it hands to `::close`, in order.
pub mod Ownership
use libsimplenet.Base.{
  ℤ, pos, negsuc, ℤ_discrete, is_negative, Bool, not, List, [], ◌∷◌, ite, if◌then◌else◌,
}
use libsimplenet.Core.Results.{Status, done, err, from_errno, Outcome}
use libsimplenet.Core.Errno.{ebadf}

pub record UniqueFd : Type 0 where
  pub fd : ℤ

-- What an operation leaves: the object and the descriptors closed on the way.
pub record Closing : Type 0 where
  pub owner : UniqueFd
  pub closed : List ℤ

-- The default member initializer of `fd_`.
abbrev pub no_fd : ℤ
no_fd = negsuc 0

abbrev pub none_owned : UniqueFd
none_owned = record { fd = no_fd }

unfoldable pub valid : UniqueFd → Bool
valid u = not (is_negative u.fd)

unfoldable pub release : UniqueFd → ℤ × UniqueFd
release u = (u.fd, record u { fd = no_fd })

unfoldable pub reset : UniqueFd → ℤ → Closing
unfolding valid ℤ_discrete
reset u fd =
    ite (ℤ_discrete u.fd fd) (record { owner = u; closed = [] })
      (record { owner = record { fd = fd }; closed = if valid u then u.fd ∷ [] else [] })

-- The destructor.
unfoldable pub destroy : UniqueFd → List ℤ
unfolding reset
destroy u = (reset u no_fd).closed

-- `unique_fd(unique_fd&& other)`: the new object and what is left of the other.
unfoldable pub move_from : UniqueFd → UniqueFd × UniqueFd
unfolding release
move_from other = let (fd, rest) = release other in (record { fd = fd }, rest)

-- `operator=(unique_fd&& other)` of two distinct objects: this object after it, and the other.
unfoldable pub move_assign : UniqueFd → UniqueFd → Closing × UniqueFd
unfolding release reset
move_assign this other = let (fd, rest) = release other in (reset this fd, rest)

-- `swap`
unfoldable pub swap : UniqueFd → UniqueFd → UniqueFd × UniqueFd
swap this other = (record { fd = other.fd }, record { fd = this.fd })

-- `close_fd`, over `::close`.
module _ {W : Type 0} (close : ℤ → W → Outcome W) where
  unfoldable pub close_fd : ℤ → W → Status × W
  unfolding ℤ_discrete
  close_fd fd w =
      let out = close fd w in
      if is_negative fd
      then (err (from_errno ebadf), w)
      else ite (ℤ_discrete out.value (pos 0)) (done, out.world)
          (err (from_errno out.errno), out.world)
