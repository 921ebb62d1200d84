-- ===== src/Isolation/Hardware/Switches.antt =====
-- The changes of a core's bitmaps: the update of its registers, and a switch to an enclave and back.
use security_monitor.Prelude.{ℕ, ◌<◌, ◌≡◌, sym, ◌∙◌, ◌≢◌, Bool, true, false, arith}
use security_monitor.Types.{num_regions, num_cores, owner_untrusted, CoreState, Machine}
use security_monitor.Call.{after}
use security_monitor.Platform.{platform_update_memory_protection}
use security_monitor.Platform.Bitmap.{accessible-bitmap}
use security_monitor.Enclave.Load.{Image}
use security_monitor.Enclave.Switch.{
  enter_commit, enclave_enter, exit_commit, enclave_exit, enclave_aex,
}
use security_monitor.Isolation.{Quiet, View, Agrees, Sound}
use security_monitor.Isolation.Leading.{Step}
use security_monitor.Isolation.Agreement.{enter-Step, exit-Step, update-Sound}
use security_monitor.Isolation.Switching.{
  enclave_enter_leads, enclave_exit_leads, enclave_aex_leads,
}
use security_monitor.Isolation.Hardware.{
  Guarded, Protected, accessible-zero, Quiet-Protected, protection,
}

-- The bitmaps are computed from the maps.
pub updated-Guarded :
    (core : ℕ) (m : Machine) (j c : ℕ)
    → j < num_regions
    → Agrees j m
    → Guarded m j c
    → Guarded (platform_update_memory_protection core m) j c
unfolding platform_update_memory_protection
updated-Guarded core m j c h v g = ground (
  arith,
  g,
  v (m.sm.cores core).owner,
  accessible-bitmap m.sm.untrusted_regions j h,
  accessible-bitmap (m.enclaves (m.sm.cores core).owner).regions j h,
  accessible-zero j,
)

pub enter-Guarded :
    (image : Image) (core e t : ℕ) (regs : CoreState) (mtime : ℕ) (m : Machine) (j c : ℕ)
    → j < num_regions
    → Agrees j m
    → (m.sm.cores core).owner ≡ owner_untrusted
    → Guarded m j core
    → Guarded m j c
    → Guarded (enter_commit image core e t regs mtime m) j c
unfolding enter_commit
enter-Guarded image core e t regs mtime m j c h v o k g =
    ground (arith, g, k, v e, accessible-bitmap (m.enclaves e).regions j h)

pub exit-Guarded :
    (core : ℕ) (aex : Bool) (m : Machine) (j c : ℕ)
    → (m.sm.cores core).owner ≢ owner_untrusted
    → Guarded m j core
    → Guarded m j c
    → Guarded (exit_commit core aex m) j c
unfolding exit_commit
exit-Guarded core aex m j c o k g = ground (arith, g, k)

-- The registers of a core are written anew; who runs on it does not change.
pub update-Protected :
    (core j : ℕ) → j < num_regions → Sound (protection j) (platform_update_memory_protection core)
unfolding platform_update_memory_protection
update-Protected core j h = record {
  keeps = λ m v. record {
    agrees = (update-Sound core).keeps m v.agrees;
    guarded = λ c k. updated-Guarded core m j c h v.agrees (v.guarded c k);
    metadata_fixed = v.metadata_fixed;
  };
}

-- The core runs the untrusted system; an enclave.
pub record Outside (j core : ℕ) (m : Machine) : Type 0 where
  pub is_outside : (m.sm.cores core).owner ≡ owner_untrusted
  pub outside : Protected j m

pub record Inside (j core : ℕ) (m : Machine) : Type 0 where
  pub is_inside : (m.sm.cores core).owner ≢ owner_untrusted
  pub inside : Protected j m

Quiet-Outside : (j core : ℕ) (m n : Machine) → Quiet j m n → Outside j core m → Outside j core n
Quiet-Outside j core m n q v = record {
  is_outside = q.cores.core_owner core ∙ v.is_outside;
  outside = Quiet-Protected j m n q v.outside;
}

Quiet-Inside : (j core : ℕ) (m n : Machine) → Quiet j m n → Inside j core m → Inside j core n
Quiet-Inside j core m n q v = record {
  is_inside = λ e. v.is_inside (sym (q.cores.core_owner core) ∙ e);
  inside = Quiet-Protected j m n q v.inside;
}

abbrev outside_view : ℕ → ℕ → View
outside_view j core = record { region = j; holds = Outside j core; quiet = Quiet-Outside j core }

abbrev inside_view : ℕ → ℕ → View
inside_view j core = record { region = j; holds = Inside j core; quiet = Quiet-Inside j core }

module _ {j : ℕ} (h : j < num_regions) (core : ℕ) (k : core < num_cores) where
  enter-Protected :
      (image : Image) (e t : ℕ) (regs : CoreState) (mtime : ℕ)
      → Step (outside_view j core) (protection j) (enter_commit image core e t regs mtime)
  unfolding enter_commit
  enter-Protected image e t regs mtime = record {
    steps = λ m v. record {
      agrees = (enter-Step image core e t regs mtime).steps m v.outside.agrees;
      guarded = λ c l.
          enter-Guarded image core e t regs mtime m j c h v.outside.agrees v.is_outside
            (v.outside.guarded core k) (v.outside.guarded c l);
      metadata_fixed = v.outside.metadata_fixed;
    };
  }

  exit-Protected : (aex : Bool) → Step (inside_view j core) (protection j) (exit_commit core aex)
  unfolding exit_commit
  exit-Protected aex = record {
    steps = λ m v. record {
      agrees = (exit-Step core aex).steps m v.inside.agrees;
      guarded = λ c l.
          exit-Guarded core aex m j c v.is_inside (v.inside.guarded core k) (v.inside.guarded c l);
      metadata_fixed = v.inside.metadata_fixed;
    };
  }

  pub enclave_enter-Protected :
      (image : Image) (e t : ℕ) (regs : CoreState) (mtime : ℕ) (m : Machine)
      → Outside j core m
      → Protected j (after m (enclave_enter image core e t regs mtime m))
  enclave_enter-Protected image e t regs mtime m v =
      enclave_enter_leads {p = outside_view j core} {q = protection j} (λ n w. w.outside) image core
        e t regs mtime m (enter-Protected image e t regs mtime) v

  pub enclave_exit-Protected :
      (m : Machine) → Inside j core m → Protected j (after m (enclave_exit core m))
  enclave_exit-Protected m v =
      enclave_exit_leads {p = inside_view j core} {q = protection j} (λ n w. w.inside) core m
        (exit-Protected false) v

  pub enclave_aex-Protected :
      (regs : CoreState) (m : Machine)
      → Inside j core m
      → Protected j (after m (enclave_aex core regs m))
  enclave_aex-Protected regs m v =
      enclave_aex_leads {p = inside_view j core} {q = protection j} (λ n w. w.inside) core regs m
        (exit-Protected true) v
