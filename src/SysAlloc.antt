-- ===== src/SysAlloc.antt =====
-- SysAlloc.cpp, the calls of the Windows virtual memory functions. What VirtualAlloc answers is not
-- the program's to say: it is a parameter that sees the calls made so far, and 0 is its NULL.
use odin_memory_allocator.Base.{ℕ, List, ◌∷◌, ◌==◌, if◌then◌else◌}
use odin_memory_allocator.Memory.{null}

pub data AllocationType : Type 0 where
  mem_reserve mem_commit mem_commit_reserve : AllocationType

pub data Protection : Type 0 where
  page_noaccess page_readwrite : Protection

pub data FreeType : Type 0 where
  mem_release mem_decommit : FreeType

pub data SystemCall : Type 0 where
  virtual_alloc : (ptr size : ℕ) → AllocationType → Protection → SystemCall
  virtual_free : (ptr size : ℕ) → FreeType → SystemCall

-- The calls made, the latest first.
abbrev pub Calls : Type 0
Calls = List SystemCall

-- What a call of VirtualAlloc returns after the calls before it.
abbrev pub VirtualMemory : Type 0
VirtualMemory = Calls → SystemCall → ℕ

unfoldable pub reserve_segment : VirtualMemory → (size ptr : ℕ) → Calls → ℕ × Calls
reserve_segment os size ptr calls =
    let call = virtual_alloc ptr size mem_reserve page_noaccess in
    let base_ptr = os calls call in
    if base_ptr == null then (0, call ∷ calls) else (base_ptr, call ∷ calls)

unfoldable pub release_segment : (ptr size : ℕ) → Calls → Calls
release_segment ptr size calls = virtual_free ptr 0 mem_release ∷ calls

unfoldable pub commit_page : (ptr size : ℕ) → Calls → Calls
commit_page ptr size calls = virtual_alloc ptr size mem_commit page_readwrite ∷ calls

unfoldable pub decommit_page : (ptr size : ℕ) → Calls → Calls
decommit_page ptr size calls = virtual_free ptr size mem_decommit ∷ calls

unfoldable pub reserve_commit_segment : VirtualMemory → (size : ℕ) → Calls → ℕ × Calls
reserve_commit_segment os size calls =
    let call = virtual_alloc null size mem_commit_reserve page_readwrite in
    let base_ptr = os calls call in
    if base_ptr == null then (0, call ∷ calls) else (base_ptr, call ∷ calls)
