-- ===== src/CloudCourse.antt =====
-- cloudcourse.py: the downloaded programs that an appliance keeps in its option tokens
pub mod Blob
pub mod Store
