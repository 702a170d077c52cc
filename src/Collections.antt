-- ===== src/Collections.antt =====
-- std::collections of the program: HashMap<String, V> and HashSet<String>.
pub mod HashMap
pub mod HashSet
pub mod Counting
pub mod Entries
