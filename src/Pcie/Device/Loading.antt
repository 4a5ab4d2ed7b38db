-- ===== src/Pcie/Device/Loading.antt =====
-- history/sw/drivers/pcie/src/base.c: `pcidriver_init` and `pcidriver_exit`, which run when the driver is
-- loaded and unloaded, and `pcidriver_open` and `pcidriver_release` for a file of a program. What the
-- kernel answers is an argument.
use bpm_gw.Base.{
  ℤ, pos, negsuc, ℕ, ◌≡◌, ◌≢◌, refl, sym, ap, subst, ◌∙◌, Bool, true, false, not, ◌&&◌, Option,
  none, some, if◌then◌else◌, arith,
}
use bpm_gw.Pcie.Ioctl.{is_zero}

-- What `pcidriver_class` holds: NULL, the class, or the error code of `class_create` in its place.
data ClassPointer : Type 0 where
  no_class : ClassPointer
  class : ClassPointer
  err_ptr : ℕ → ClassPointer

-- The global variables of the driver, and what the kernel holds for it: the region of device numbers, the
-- class and the entry in the list of PCI drivers.
record Loaded : Type 0 where
  device_count : ℕ
  pcidriver_class : ClassPointer
  region : Bool
  class_made : Bool
  registered : Bool

-- The results of `alloc_chrdev_region`, `class_create` and `pci_register_driver`.
record InitGrant : Type 0 where
  chrdev_region : ℤ
  class_create : ClassPointer
  pci_register : ℤ

abbrev is_err : ClassPointer → Bool
is_err no_class = false
is_err class = false
is_err (err_ptr code) = true

abbrev is_null : ClassPointer → Bool
is_null no_class = true
is_null class = false
is_null (err_ptr code) = false

abbrev is_error : ℤ → Bool
is_error (pos n) = false
is_error (negsuc n) = true

-- The labels at the end of `pcidriver_init`.
abbrev at_init_class_fail : ℤ → Loaded → ℤ × Loaded
at_init_class_fail err l = (err, record l { region = false })

abbrev at_init_pcireg_fail : ℤ → Loaded → ℤ × Loaded
at_init_pcireg_fail err l = at_init_class_fail err (record l { class_made = false })

-- From the call of `class_create` on, with the `err` of the call before it.
unfoldable init_class : InitGrant → ℤ → Loaded → ℤ × Loaded
init_class g err l =
    let c = record l {
      pcidriver_class = g.class_create;
      class_made = not (is_err g.class_create);
    } in
    if is_err g.class_create
    then at_init_class_fail err c
    else if is_error g.pci_register
    then at_init_pcireg_fail g.pci_register c
    else (pos 0, record c { registered = true })

unfoldable pcidriver_init : InitGrant → Loaded → ℤ × Loaded
pcidriver_init g l =
    let z = record l { device_count = 0 } in
    if not (is_zero g.chrdev_region)
    then (g.chrdev_region, z)
    else init_class g g.chrdev_region (record z { region = true })

-- `none` is the release of a PCI driver or of a region that the kernel does not hold.
unfoldable pcidriver_exit : Loaded → Option Loaded
pcidriver_exit l =
    if l.registered && l.region
    then some (record l {
      registered = false;
      region = false;
      class_made = if is_null l.pcidriver_class then l.class_made else false;
    })
    else none

-- `cdev` numbers the devices, so that `container_of` is the device with that number.
record File : Type 0 where
  private_data : Option ℕ

abbrev pcidriver_open : ℕ → File → ℤ × File
pcidriver_open i_cdev filp = (pos 0, record filp { private_data = some i_cdev })

abbrev pcidriver_release : File → ℤ × File
pcidriver_release filp = (pos 0, filp)

-- Nothing is left in the kernel.
record NothingLeft (l : Loaded) : Type 0 where
  region_free : l.region ≡ false
  class_gone : l.class_made ≡ false
  unregistered : l.registered ≡ false

init_class-NothingLeft :
    (g : InitGrant) (err : ℤ) (l : Loaded)
    → l.registered ≡ false
    → (init_class g err l).0 ≢ pos 0
    → NothingLeft (init_class g err l).1
unfolding init_class
init_class-NothingLeft g err l free ne = record {
  region_free = ground (arith, ne);
  class_gone = ground (arith, ne);
  unregistered = ground (arith, ne);
}

-- Where nothing was held before and `pcidriver_init` reports an error, it leaves nothing in the kernel.
pcidriver_init-NothingLeft :
    (g : InitGrant) (l : Loaded)
    → NothingLeft l
    → (pcidriver_init g l).0 ≢ pos 0
    → NothingLeft (pcidriver_init g l).1
unfolding pcidriver_init
pcidriver_init-NothingLeft g l n ne =
    let z = record l { device_count = 0; region = true } in
    let rest : (init_class g g.chrdev_region z).0 ≢ pos 0
        → NothingLeft (init_class g g.chrdev_region z).1 =
      init_class-NothingLeft g g.chrdev_region z n.unregistered in
    record {
      region_free = ground (
        arith,
        n.region_free,
        ne,
        λ (h : (init_class g g.chrdev_region z).0 ≢ pos 0). (rest h).region_free,
      );
      class_gone = ground (
        arith,
        n.class_gone,
        ne,
        λ (h : (init_class g g.chrdev_region z).0 ≢ pos 0). (rest h).class_gone,
      );
      unregistered = ground (
        arith,
        n.unregistered,
        ne,
        λ (h : (init_class g g.chrdev_region z).0 ≢ pos 0). (rest h).unregistered,
      );
    }

abbrev granted : InitGrant → Loaded → Loaded
granted g l = record {
  device_count = 0;
  pcidriver_class = g.class_create;
  region = true;
  class_made = true;
  registered = true;
}

init_granted :
    (g : InitGrant) (l : Loaded)
    → g.chrdev_region ≡ pos 0
    → g.class_create ≡ class
    → is_error g.pci_register ≡ false
    → pcidriver_init g l ≡ (pos 0, granted g l)
unfolding pcidriver_init init_class
init_granted g l r c p = rw (r, c, p) refl

-- Where the kernel grants all that `pcidriver_init` asks for, it reports 0, and `pcidriver_exit` then
-- leaves nothing in the kernel.
pcidriver_exit-pcidriver_init :
    (g : InitGrant) (l : Loaded)
    → g.chrdev_region ≡ pos 0
    → g.class_create ≡ class
    → is_error g.pci_register ≡ false
    → ((pcidriver_init g l).0 ≡ pos 0)
      × ((l' : Loaded) × (pcidriver_exit (pcidriver_init g l).1 ≡ some l') × NothingLeft l')
unfolding pcidriver_exit
pcidriver_exit-pcidriver_init g l r c p =
    let e = init_granted g l r c p in
    let unloaded = record (granted g l) {
      registered = false;
      region = false;
      class_made = false;
    } in
    (
      ap (λ x. x.0) e,
      (
        unloaded,
        ap (λ x. pcidriver_exit x.1) e ∙ rw c refl,
        record { region_free = refl; class_gone = refl; unregistered = refl },
      ),
    )

abbrev refused : Loaded → ℕ → Loaded
refused l code = record l {
  device_count = 0;
  pcidriver_class = err_ptr code;
  region = false;
  class_made = false;
}

init_refused :
    (g : InitGrant) (l : Loaded) (code : ℕ)
    → g.chrdev_region ≡ pos 0
    → g.class_create ≡ err_ptr code
    → pcidriver_init g l ≡ (pos 0, refused l code)
unfolding pcidriver_init init_class
init_refused g l code r c = rw (r, c) refl

-- Where nothing was held before and `class_create` gives an error, `pcidriver_init` reports 0, although it
-- has registered nothing, and `pcidriver_exit` then releases what the kernel does not hold.
pcidriver_init-class_create :
    (g : InitGrant) (l : Loaded) (code : ℕ)
    → NothingLeft l
    → g.chrdev_region ≡ pos 0
    → g.class_create ≡ err_ptr code
    → ((pcidriver_init g l).0 ≡ pos 0)
      × NothingLeft (pcidriver_init g l).1
      × (pcidriver_exit (pcidriver_init g l).1 ≡ none)
unfolding pcidriver_exit
pcidriver_init-class_create g l code n r c =
    let e = init_refused g l code r c in
    let left : NothingLeft (refused l code) = record {
      region_free = refl;
      class_gone = refl;
      unregistered = n.unregistered;
    } in
    (
      ap (λ x. x.0) e,
      subst (λ x. NothingLeft x.1) (sym e) left,
      ap (λ x. pcidriver_exit x.1) e ∙ rw n.unregistered refl,
    )
