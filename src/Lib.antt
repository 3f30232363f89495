-- ===== src/Lib.antt =====
-- rocsift is a library to look into AMD GPUs: it finds devices and their partitions through KFD,
-- DRM and debugfs, reads and writes their memories and registers, decodes the PM4 runlists that
-- the driver hands to the hardware, and translates virtual addresses by walking page tables.
-- This library models the parts where the program computes: the decoding of runlists, the
-- routing of VRAM addresses over an XGMI hive, the accesses to system memory and SMN registers,
-- the families of devices, and the page-table walk.
--
-- The parts meet as follows. A translator of src/xlator finds a process by the MAP_PROCESS
-- packets that src/pm4 decodes, finds its VMID in registers whose places depend on the family of
-- the device, and walks the page tables through the memories that a partition of src/sift gives
-- access to.
--
-- The files and what they model:
--
-- - Common: Boolean tests, lists measured by the native numbers, machine words with their wrap-
--   around written out, and Run, the ways in which C++ code ends: it returns, throws, does
--   something undefined, or runs out of fuel.
--
-- - Pm4/Types, Pm4/Packet, Pm4/Entry: the structs of include/rocsift/pm4.h, slice, getBodySlice,
--   parseBodyMapProcess, parseBodyMapQueues, parseRunlistEntry and parseRunlistEntries of
--   src/pm4/pm4.cc. A span keeps the whole array behind its start, so that a read past the array
--   is a fault and a read past the span only is not. malloc is a parameter that says which call
--   gives memory. Pm4/Encode is the packet format, an encoder that does not depend on the
--   decoder; Pm4/RoundTrip, Pm4/Stream and Pm4/Short relate the two.
--
-- - Pm4/Line: parseNodeLine, getDataStartPosition and parseDataSection. The regular expressions
--   are scanners on character codes. The index of the dwords is an int there, as in
--   BuildEntries; 2^31 dwords overflow it, which is a fault. Pm4/Print prints the lines.
--
-- - Pm4/Parser: the class RlsParser of src/pm4/rls_parser.cc. Parser/Text, Parser/Steps and
--   Parser/Section follow its loop over the lines of a section; Parser/Parse and Parser/Ends are
--   about whole calls.
--
-- - Pm4/Heap, Pm4/Capi: the C interface of src/pm4/pm4.cc, sift_pm4_parse_runlist,
--   sift_pm4_parse_runlists, sift_pm4_get_runlist, sift_pm4_get_runlists and the destroy
--   functions, on a memory of blocks with their addresses. An address is used once; a read or a
--   free of a block that is not there is a fault. malloc is a parameter that says for which
--   address it gives memory. Pm4/Capi/Series is the list of runlists with the handler of its
--   exceptions, Pm4/Capi/Single the runlist of one GPU. Pm4/Capi/Layout is the memory that the
--   list should be; Pm4/Capi/Destroy, Pm4/Capi/Append, Pm4/Capi/Round and Pm4/Capi/Build relate
--   the code to it; Pm4/Capi/Text is the text of a file as sections, Pm4/Capi/Newlines and
--   Pm4/Capi/Calls follow the calls of Parse over it; Pm4/Capi/RoundTrip, Pm4/Capi/Found,
--   Pm4/Capi/Handler and Pm4/Capi/BadLine are about whole calls.
--
-- - Sift/Vram: Partition::ReadVRAM and Partition::WriteVRAM of src/sift/partition.cc.
--   Sift/Vram/Layout is the address space of a hive; Sift/Vram/Route and Sift/Vram/Access relate
--   the two. What a VRAM file returns is a parameter.
--
-- - Sift/Access: DebugFSVRAMAccessor, DebugFSIOMEMAccessor, SRAMAccessor and DebugFSSMNAccessor
--   of src/sift, on files and registers that are parameters. Sift/Access/Window is about the
--   last one.
--
-- - Sift/Resolve, Sift/Xcc, Sift/Device, Sift/Engine: Partition::ResolveDebugFS,
--   Device::PartitionsFromNodes, the constructors of Device and Partition, and
--   Engine::EnumerateDevices and Engine::EnumeratePartitions of src/sift. A std::map is the list
--   of its entries in the order of the keys; a pointer to a KFD node is its place.
--   Sift/Xcc/Split is about the XCCs, Sift/Engine/Builders, Sift/Engine/Order, Sift/Engine/Made
--   and Sift/Engine/Numbers about the numbers of devices and partitions.
--
-- - Sift/Capi: the functions of src/sift/capi.cc and those of src/kfd/kfdcapi.cc that give
--   handles, on an engine that may be null. Sift/Capi/Lifetime is sift_init and sift_destroy,
--   Sift/Capi/Access the accesses to memories and registers with the members of Device and
--   Partition behind them; Sift/Capi/Handles and Sift/Capi/Lifetime/Balance are about handles
--   and references.
--
-- - Kfd: KFDNode::ParseKFDProperties of src/kfd/kfdnode.cc; Kfd/Override is its last part, the
--   override of device IDs, and Kfd/Override/Last is about that. Kfd/Field has the fields of
--   sift_kfd_node_properties_t, Kfd/Properties the regular expressions as scanners on character
--   codes, in the order of the tests. Kfd/Lines, Kfd/Rows, Kfd/Names, Kfd/Printed and Kfd/File
--   are about the lines that the driver prints.
--
-- - Drm: the classes DRMNode and DRM of src/drm/drm.cc on a file system that is a parameter, in
--   Drm/Files. Drm/Hive is InitXGMIInfo and the constructor of DRM; Drm/Order, Drm/Find,
--   Drm/Sorted, Drm/Last and Drm/Paths are about the order of the nodes, their names, their
--   hives and their paths.
--
-- - Chip: the family tests of include/rocsift/chipid.h, and decode_mtype of
--   include/rocsift/mtype.h in Chip/Mtype.
--
-- - Xlator/Types, Xlator/Fields, Xlator/Walk, Xlator/Overlap, Xlator/Registers: the structs,
--   get_bits and the field readers, walk_pt, fragments_overlap and sift_xlator_create of
--   src/xlator/xlator.c. The memories, and what the library answers for a node and a partition,
--   are parameters. The arrays of the walk helper are functions of the level. Xlator/Setup is
--   sift_xlator_populate_walk_helper, Xlator/Process sift_xlator_pt_base_from_pasid and
--   Xlator/Vmid sift_xlator_vmid_from_pt_base. Xlator/Range is is_contiguous and the loop of
--   sift_xlator_translate_range, with the list of fragments as a value; Xlator/Range/Pages,
--   Xlator/Range/Loop and Xlator/Range/Cover follow it over pages, and Xlator/Translate/Walked
--   puts it together with the walks; Xlator/Translate is sift_xlator_translate and
--   sift_xlator_create_for_process on top of these; Xlator/Range/Pages, Xlator/Range/Loop,
--   Xlator/Range/Cover and Xlator/Translate/Process are about them. Xlator/Cache has the walk
--   without a cache, Xlator/Context the places of the registers.
--
-- Fuel: the loop of Parse gets three rounds more than the text has characters, since every round
-- but the last two moves behind a newline. The loop of sift_pm4_parse_runlists gets two rounds
-- more than the text has characters, since each runlist takes some, and the loop of
-- sift_pm4_destroy_runlists one more than there are addresses. The scan for dwords gets one
-- round more than the section has characters, and the loop that measures entries one more than
-- the span has dwords; each round takes at least one. The loop of SRAMAccessor gets two rounds,
-- since the first clears use_iomem. The loop of sift_xlator_translate_range gets a round for
-- every address of 64 bits. The walk recurs on the level and needs none.
--
-- Not modelled: logging; the reading of sysfs and debugfs, but for the DRM nodes; the tree of
-- the IP discovery; the command line tools; third-party code.
pub mod Common
pub mod Pm4
pub mod Sift
pub mod Chip
pub mod Xlator
pub mod Kfd
pub mod Drm
