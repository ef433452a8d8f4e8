-- ===== src/Driver/Loading.antt =====
-- main.c: loading the module and unloading it, and what it holds of the kernel in between.
use sa_wa.Base.{
  ℕ, ◌%◌, ◌^◌, ◌≡◌, refl, ◌∙◌, Bool, true, false, not, Option, none, some, List, [], ◌∷◌, ◌++◌, ℤ,
  pos, negsuc, nonneg, ◌==◌, ltb, if◌then◌else◌, arith, Bool-cases, inl, inr, ◌-◌,
}
use sa_wa.Driver.Network.{Kernel, Done, sawa_send_info}

-- What the kernel answers while the module is loaded: to the request for the number of sectors,
-- whether blk_init_queue and alloc_disk return memory, and what register_blkdev returns.
pub record Loader : Type 0 where
  pub kernel : Kernel
  pub queue_made : Bool
  pub registered : ℤ
  pub disk_made : Bool

-- What the module holds of the kernel.
pub data Resource : Type 0 where
  request_queue : Resource
  block_major : ℕ → Resource
  gendisk : Resource
  added_disk : Resource

-- The fields of sawa_dev.gd that the module fills.
pub record Disk : Type 0 where
  pub major : ℕ
  pub first_minor : ℕ
  pub capacity : ℕ

-- sawa_dev and major_number, with what the module holds; `queue` is whether sawa_dev.queue is set.
pub record NetDev : Type 0 where
  pub nb_sectors : ℕ
  pub queue : Bool
  pub gd : Option Disk
  pub major_number : ℕ
  pub held : List Resource

abbrev pub zeroed : NetDev
zeroed = record { nb_sectors = 0; queue = false; gd = none; major_number = 0; held = [] }

-- What register_blkdev returned, in an unsigned int.
abbrev pub major_of : ℤ → ℕ
major_of (pos n) = n % 2 ^ 32
major_of (negsuc n) = 2 ^ 32 - 1 - n % 2 ^ 32

unfoldable pub is_major : ℕ → Resource → Bool
is_major n request_queue = false
is_major n (block_major m) = m == n
is_major n gendisk = false
is_major n added_disk = false

unfoldable pub is_disk : Resource → Bool
is_disk request_queue = false
is_disk (block_major m) = false
is_disk gendisk = true
is_disk added_disk = true

unfoldable pub is_queue : Resource → Bool
is_queue request_queue = true
is_queue (block_major m) = false
is_queue gendisk = false
is_queue added_disk = false

-- The resources that are left when those of a kind are given back.
unfoldable pub without : (Resource → Bool) → List Resource → List Resource
without gone [] = []
without gone (r ∷ rs) = if gone r then without gone rs else r ∷ without gone rs

unfoldable pub unregister_blkdev : ℕ → NetDev → NetDev
unfolding without is_major
unregister_blkdev n dev = record dev { held = without (is_major n) dev.held }

abbrev pub enomem : ℤ
enomem = negsuc 11

-- Behind the registration: the disk.
unfoldable pub make_disk : Bool → NetDev → ℤ × NetDev
unfolding unregister_blkdev
make_disk false dev = (enomem, unregister_blkdev dev.major_number dev)
make_disk true dev = (
  pos 0,
  record dev {
    gd = some (record { major = dev.major_number; first_minor = 0; capacity = dev.nb_sectors });
    held = dev.held ++ gendisk ∷ added_disk ∷ [];
  },
)

-- A registration that fails registers nothing. `major_number` is unsigned where it is tested.
unfoldable pub register : ℤ → NetDev → NetDev
register registered dev = record dev {
  major_number = major_of registered;
  held = if nonneg registered then dev.held ++ block_major (major_of registered) ∷ [] else dev.held;
}

unfoldable pub with_queue : Loader → NetDev → ℤ × NetDev
unfolding make_disk register
with_queue load dev =
    let dev' = register load.registered dev in
    if ltb dev'.major_number 0 then (enomem, dev') else make_disk load.disk_made dev'

-- The number that the module's initialisation returns, and the device behind it, from the number of
-- sectors that the driver had; none where the request for that number has no result.
unfoldable pub sawa_driver_init : (ℕ → ℕ) → Loader → ℕ → Option (ℤ × NetDev)
unfolding with_queue
sawa_driver_init stale load nb_sectors = elim (sawa_send_info stale load.kernel nb_sectors) [
  | none ↦ none
  | some (sectors, done) ↦ some (
      if not (nonneg done.ret)
      then (negsuc 0, zeroed)
      else if load.queue_made
      then with_queue load
          (record zeroed { nb_sectors = sectors; queue = true; held = request_queue ∷ [] })
      else (enomem, record zeroed { nb_sectors = sectors }))
]

unfoldable pub delete_disk : NetDev → NetDev
unfolding without is_disk
delete_disk dev = elim dev.gd [
  | none ↦ dev
  | some disk ↦ record dev { held = without is_disk dev.held }
]

unfoldable pub sawa_driver_exit : NetDev → NetDev
unfolding delete_disk unregister_blkdev without is_queue
sawa_driver_exit dev =
    let dev' = unregister_blkdev dev.major_number (delete_disk dev) in
    if dev.queue then record dev' { held = without is_queue dev'.held } else dev'

-- What loading returns and leaves held, from whether the server was reached and the queue and the
-- disk were made.
unfoldable pub code_of : Bool → Bool → Bool → ℤ
code_of false queue disk = negsuc 0
code_of true false disk = enomem
code_of true true false = enomem
code_of true true true = pos 0

unfoldable pub majors : ℤ → List Resource
majors (pos n) = block_major (n % 2 ^ 32) ∷ []
majors (negsuc n) = []

unfoldable pub held_of : Bool → Bool → Bool → ℤ → List Resource
unfolding majors
held_of false queue disk registered = []
held_of true false disk registered = []
held_of true true false registered = request_queue ∷ []
held_of true true true registered = request_queue ∷ (majors registered ++ gendisk ∷ added_disk ∷ [])

==-refl : (n : ℕ) → (n == n) ≡ true
==-refl n = ground arith

abbrev queued : ℕ → NetDev
queued sectors = record zeroed { nb_sectors = sectors; queue = true; held = request_queue ∷ [] }

-- The number in major_number is never below 0.
with_queue-make_disk :
    (load : Loader) (dev : NetDev)
    → with_queue load dev ≡ make_disk load.disk_made (register load.registered dev)
unfolding with_queue
with_queue-make_disk load dev =
    let positive : ltb (register load.registered dev).major_number 0 ≡ false = ground arith in
    rw positive refl

make_disk-register :
    (registered : ℤ) (disk : Bool) (sectors : ℕ)
    → (dev : NetDev) × (make_disk disk (register registered (queued sectors))
        ≡ (code_of true true disk, dev))
      × (dev.held ≡ held_of true true disk registered)
      × ((sawa_driver_exit dev).held ≡ [])
unfolding make_disk register code_of held_of sawa_driver_exit
make_disk-register (pos n) true sectors = (_, refl, refl, rw (==-refl (n % 2 ^ 32)) refl)
make_disk-register (pos n) false sectors =
    (_, refl, rw (==-refl (n % 2 ^ 32)) refl, rw (==-refl (n % 2 ^ 32)) refl)
make_disk-register (negsuc n) true sectors = (_, refl, refl, refl)
make_disk-register (negsuc n) false sectors = (_, refl, refl, refl)

with_queue_lem :
    (load : Loader) (sectors : ℕ)
    → (dev : NetDev) × (with_queue load (queued sectors) ≡ (code_of true true load.disk_made, dev))
      × (dev.held ≡ held_of true true load.disk_made load.registered)
      × ((sawa_driver_exit dev).held ≡ [])
with_queue_lem load sectors =
    let (dev, e, held, back) = make_disk-register load.registered load.disk_made sectors in
    (dev, with_queue-make_disk load (queued sectors) ∙ e, held, back)

-- Of a loading whose request for the number of sectors has a result: it succeeds exactly when the
-- server is reached and the queue and the disk are made, also when register_blkdev fails. It holds the
-- queue, the registered major number if there is one, and the disk then; if only the disk is not made
-- it leaves the queue held, and otherwise nothing. The module's exit would give back all that is held.
pub sawa_driver_init-sawa_driver_exit :
    (stale : ℕ → ℕ) (load : Loader) (nb_sectors sectors : ℕ) (done : Done)
    → sawa_send_info stale load.kernel nb_sectors ≡ some (sectors, done)
    → (dev : NetDev) × (sawa_driver_init stale load nb_sectors
        ≡ some (code_of (nonneg done.ret) load.queue_made load.disk_made, dev))
      × (dev.held ≡ held_of (nonneg done.ret) load.queue_made load.disk_made load.registered)
      × ((sawa_driver_exit dev).held ≡ [])
unfolding sawa_driver_init code_of held_of sawa_driver_exit
sawa_driver_init-sawa_driver_exit stale load nb_sectors sectors done e =
    elim (Bool-cases (nonneg done.ret)) [
      | inl reached ↦ elim (Bool-cases load.queue_made) [
        | inl made ↦
            let (dev, f, held, back) = with_queue_lem load sectors in
            (dev, ground (arith, e, reached, made, f), ground (arith, reached, made, held), back)
        | inr made ↦ (
          record zeroed { nb_sectors = sectors },
          ground (arith, e, reached, made),
          ground (arith, reached, made),
          refl,
        )
      ]
      | inr lost ↦ (zeroed, ground (arith, e, lost), ground (arith, lost), refl)
    ]
