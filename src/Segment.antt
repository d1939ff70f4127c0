-- ===== src/Segment.antt =====
-- The shared memory of the containers: the file of a server's segment
-- (`boost::interprocess::managed_mapped_file`), the objects in it, and how servers and clients get to
-- them in the constructors.
pub mod Files
pub mod Defs
pub mod Paths
pub mod Attach
pub mod Class
pub mod Construct
pub mod Servers
pub mod Nodes
pub mod Unnumbered
