-- ===== src/Lib.antt =====
-- MemNixFS opens a Linux memory dump and presents what it holds as a file system. A dump is a
-- byte storage (MemorySource); a format turns it into a sparse physical address space
-- (PhysicalLayer); the page walk (PageTable) turns that into virtual address spaces, through a
-- page cache where the reads are many; the engine builds a tree of directories and lazy files
-- from what the kernel structures in the dump say; a mount lists and reads the tree, and a pool
-- of threads loads files ahead of their use. This library models the parts of that chain that
-- carry its logic, from the source, and proves what they promise to one another.
--
-- The files, and the code that each is about (paths from the repository's root; the files
-- themselves name them from src/ on):
--   Base, Base/*: shared names; Base/Outcome: what a C++ call can do: return (ok), throw (err),
--     have undefined behaviour such as a write outside a buffer (fault), or, in a model of a loop
--     on fuel, not finish (stuck); Base/Word, Base/Bits, Base/Buffer: 64-bit arithmetic with its
--     wrap-around, masks and shifts, buffers and little-endian fields; Base/Text: text as bytes;
--     Base/Recent: the recency order of the caches
--   Io, Io/Mmap, Io/File: src/io/memory_source.h, src/io/mmap_memory_source.cpp and
--     src/io/file_memory_source.cpp
--   Physical/Layer: src/formats/physical_layer.h; Physical/Window: the contract of a layer,
--     `Shows`: an address space is a partial map from addresses to bytes (Image), and a read yields
--     the bytes that are there, zeros elsewhere, and the count of the former
--   Formats/Raw, Formats/Lime, Formats/Kdump, Formats/Stream: src/formats/raw_format.cpp,
--     src/formats/lime_format.cpp, src/formats/kdump_format.cpp and
--     src/formats/phys_raw_stream.h; Formats/Extents: images that are made of extents
--   Formats/Avml, Formats/Factory: src/formats/avml_format.cpp and src/formats/format_factory.cpp
--   Linux/ElfCore: src/os/linux/elf_core.cpp and src/os/linux/elf_core_stream.cpp; Linux/Banner:
--     src/os/linux/banner_scan.cpp; Linux/Kva: src/os/linux/kva_reader.cpp and
--     src/os/linux/kern_va_stream.cpp; Linux/RecoveredPath: validate_recovered_fs_path of
--     src/os/linux/pagecache.cpp
--   Paging: src/arch/x86_64/paging.cpp; Paging/Cache: src/arch/x86_64/page_cache.cpp and
--     src/arch/x86_64/page_cache.h
--   Vfs/Cost, Vfs/Lazy, Vfs/Tree, Vfs/Resolve: src/vfs/vfs.h and src/vfs/vfs.cpp; Vfs/Resolve has
--     get_or_make_dir of src/app/engine.cpp too
--   Mount: ReadDirectory of src/mount/winfsp_mount.cpp
--   Warmer/Collect, Warmer/Pool, Warmer/Start: src/vfs/forensic_warmer.cpp
-- The children of a module hold its proofs, and modules named Tests hold runs and instances.
--
-- State and operations. A method that changes its object returns the object it leaves. A read
-- into a caller's buffer returns the buffer, which starts as zeros where the code clears it, with
-- the count; a store outside it is a fault, and so is a copy out of a buffer from behind its end.
-- The tree is a heap of nodes, with a number for each pointer. Lazy files hold a producer whose
-- calls need not agree. An engine is what the reads use of it, and the static cache of
-- kva_reader.cpp is an argument and part of the result. A text is the list of its bytes. The page
-- cache, the frame cache of AVML and the lazy files hold a mutex during each operation
-- (LazyFileNode::warm excepted), so that a history of calls is a list; the workers of the warmer
-- share atomic counters, and a run of the pool is a list of steps of any threads in any order.
--
-- Bounds and fuel. A 64-bit sum or difference wraps around in the definitions; theorems name the
-- range in which it does not. The loop over LiME segments has a round for each 32 bytes of the
-- file, since a round takes a header at least; PageTable::read and UserPageCache::read have a
-- round for each byte asked for, since a round takes one at least; KdumpPhysical::read has one
-- for each byte too; the walk over notes has a round for each 12 bytes of them; eviction has a
-- round for each key; a listing has a page for each name and one more; loading AVML has a round
-- for each 40 bytes of the file, a chunk a round for each 4 bytes of it; the banner scan a round
-- for each chunk; the stream of the kernel half one for each byte. In each case it is proved that
-- this is enough. The fuel of collect is to be above the depth of the tree; a directory may be
-- below itself as far as the operations on the tree go, and then the code does not end either, so
-- that the theorems about collect suppose that it came to a result.
--
-- Not modelled. Parameters stand for the C library's streams, for Snappy, for the size of
-- WinFsp's entries, the names that it takes out of them and what fits in its buffer, and for the
-- greatest size of a vector that can be allocated for the notes of a kdump; other allocations are
-- taken to succeed. Operating system calls, logging, file times and names are left out. The
-- kernel structures with the walks over them and the files that are rendered from them, the
-- search of the page table root behind the banner, the symbol tables, the C interfaces and the
-- command line are not part of the model yet. A read of the page cache is taken for one page
-- table at a time.
pub mod Base
pub mod Linux
pub mod Io
pub mod Physical
pub mod Formats
pub mod Paging
pub mod Vfs
pub mod Mount
pub mod Warmer
