-- ===== src/Tests/Starts.antt =====
-- The addresses of the registers, the addresses of the image and the log on small inputs.
use os_test.Prelude.{ℕ, ◌≡◌, refl, false, Option, none, some, List, [], ◌∷◌, ◌+◌, ◌*◌}
use os_test.Prelude.Outcome.{Outcome, done, panic}
use os_test.Memory.Virt.{PageAllocation}
use os_test.Dev.Base.{io_apic_addr, local_apic_addr, hpet_base_addr}
use os_test.QemuLog.{write_str}
use os_test.KernelImage.{kernel_size, kernel_virt_end, kernel_phy_begin}

-- Pages from the page number on that is the state.
abbrev map_next : ℕ → ℕ → ℕ → Outcome (ℕ × Option (PageAllocation × ℕ))
map_next address amount page =
    done (page + amount, some (record { first_page = page; page_amount = amount }, page * 4096))

-- Entries that are those of an IO APIC or not.
abbrev entries : List (Option (ℕ × ℕ))
entries = none ∷ some (0xfec00000, 0) ∷ some (0xfec01000, 24) ∷ []

first_io_apic : io_apic_addr map_next (λ e. e) (some entries) 7 ≡ done (8, 0x7000)
unfolding io_apic_addr
first_io_apic = refl

no_io_apic : io_apic_addr map_next (λ e. e) (some (none ∷ [])) 7 ≡ panic
unfolding io_apic_addr
no_io_apic = refl

apic_after : local_apic_addr map_next (some 0xfee00000) 8 ≡ done (9, 0x8000)
unfolding local_apic_addr
apic_after = refl

short_counter : hpet_base_addr map_next (some (0xfed00000, false)) 9 ≡ panic
unfolding hpet_base_addr
short_counter = refl

-- A port that keeps what is written to it.
abbrev keep : ℕ → ℕ → List (ℕ × ℕ) → List (ℕ × ℕ)
keep port val written = (port, val) ∷ written

two_written : write_str keep (b'h' ∷ 0x3b1 ∷ b'i' ∷ []) [] ≡ (0xe9, b'i') ∷ (0xe9, b'h') ∷ []
unfolding write_str
two_written = refl

image :
    (kernel_size 0x1000 0x5000 (some (0xffff_8000, 0x2000)) ≡ done 0x4000)
    × (kernel_virt_end 0x1000 0x5000 (some (0xffff_8000, 0x2000)) ≡ done 0xffff_c000)
    × (kernel_phy_begin 0x1000 0x5000 none ≡ panic)
unfolding kernel_size kernel_virt_end kernel_phy_begin
image = (refl, refl, refl)
